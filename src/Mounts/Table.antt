-- ===== src/Mounts/Table.antt =====
-- The mount table, as NodePublishVolume of pkg/csi/service/node.go reads it.
use cloud_provider_vsphere.Common.{
  ◌≡◌, ◌≢◌, refl, sym, ap, ◌∙◌, Bool, true, false, Option, none, some, List, [], ◌∷◌, ◌++◌, Text,
  codes, ◌==◌, ==_iff, Member, All, if◌then◌else◌, arith,
}
use cloud_provider_vsphere.Mounts.{
  already_exists, Answer, answered, refused, Mount, contains, mode_text,
}
use cloud_provider_vsphere.Mounts.Options.{contains_sound, mode_name, mode_text-name}
use cloud_provider_vsphere.Mounts.Publish.{published_as, with_mode}

-- The first of the mounts at the target has the mode.
pub record IsFirstAt (target mode : Text) (mounts : List Mount) : Type 0 where
  pub before : List Mount
  pub first : Mount
  pub after : List Mount
  pub split : mounts ≡ before ++ first ∷ after
  pub elsewhere : All (λ m. m.path ≢ target) before
  pub at_target : first.path ≡ target
  pub has_mode : Member mode first.opts

IsFirstAt-cons :
    (target mode : Text) (m : Mount) (ms : List Mount)
    → m.path ≢ target
    → IsFirstAt target mode ms
    → IsFirstAt target mode (m ∷ ms)
IsFirstAt-cons target mode m ms n f = record {
  before = m ∷ f.before;
  first = f.first;
  after = f.after;
  split = ap (m ∷◌) f.split;
  elsewhere = (n, f.elsewhere);
  at_target = f.at_target;
  has_mode = f.has_mode;
}

not-at : (s t : Text) → (s == t) ≡ false → s ≢ t
not-at s t h e = absurd (ground (arith, (==_iff s t).1 e))

with_opts :
    (m : Mount) (ro : Bool) (b : Bool)
    → contains m.opts (mode_text ro) ≡ b
    → ◌≡◌ {A = Option (Answer (Unit {0}))}
        (some (if b then answered tt else refused already_exists))
        (some (answered tt))
    → Member (mode_name ro) m.opts
with_opts m ro true e h =
    contains_sound m.opts (mode_name ro) (ap (contains m.opts) (sym (mode_text-name ro)) ∙ e)
with_opts m ro false e h = absurd (ground arith)

pub published_as-IsFirstAt :
    (target : Text) (ro : Bool) (mounts : List Mount)
    → published_as target ro mounts ≡ some (answered tt)
    → IsFirstAt target (mode_name ro) mounts
published_as-IsFirstAt target ro [] h = absurd (ground arith)
published_as-IsFirstAt target ro (m ∷ ms) h =
    at_first (m.path == target) refl (published_as-IsFirstAt target ro ms) h
  where
    at_first :
        (b : Bool)
        → (m.path == target) ≡ b
        → (published_as target ro ms ≡ some (answered tt) → IsFirstAt target (mode_name ro) ms)
        → (if b
            then some
                (if contains m.opts (mode_text ro) then answered tt else refused already_exists)
            else published_as target ro ms)
          ≡ some (answered tt)
        → IsFirstAt target (mode_name ro) (m ∷ ms)
    at_first true e f k = record {
      before = [];
      first = m;
      after = ms;
      split = refl;
      elsewhere = tt;
      at_target = (==_iff m.path target).0 e;
      has_mode = with_opts m ro (contains m.opts (mode_text ro)) refl k;
    }
    at_first false e f k = IsFirstAt-cons target (mode_name ro) m ms (not-at m.path target e) (f k)

pub published_as-none :
    (target : Text) (ro : Bool) (mounts : List Mount)
    → published_as target ro mounts ≡ none
    → All (λ m. m.path ≢ target) mounts
published_as-none target ro [] h = tt
published_as-none target ro (m ∷ ms) h =
    at_first (m.path == target) refl (published_as-none target ro ms) h
  where
    at_first :
        (b : Bool)
        → (m.path == target) ≡ b
        → (published_as target ro ms ≡ none → All (λ x. x.path ≢ target) ms)
        → (if b
            then some
                (if contains m.opts (mode_text ro) then answered tt else refused already_exists)
            else published_as target ro ms)
          ≡ none
        → All (λ x. x.path ≢ target) (m ∷ ms)
    at_first true e f k = absurd (ground arith)
    at_first false e f k = (not-at m.path target e, f k)

-- The options of a bind mount: those of the volume, and that for reading only if it is asked for.
pub record HasOptions (ro : Bool) (options flags : List Text) : Type 0 where
  pub reading : ro ≡ true → flags ≡ options ++ codes "ro" ∷ []
  pub writing : ro ≡ false → flags ≡ options

pub with_mode-HasOptions :
    (ro : Bool) (flags : List Text) → HasOptions ro flags (with_mode ro flags)
with_mode-HasOptions true flags = record {
  reading = λ e. refl;
  writing = λ e. absurd (ground arith);
}
with_mode-HasOptions false flags = record {
  reading = λ e. absurd (ground arith);
  writing = λ e. refl;
}
