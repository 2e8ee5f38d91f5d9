-- ===== src/Machines/SameMarks.antt =====
-- The two routines that mark the volumes of a node mark the same.
use cloud_provider_vsphere.Common.{
  ◌≡◌, refl, sym, ap, ◌∙◌, inl, inr, Bool, Bool-cases, true, false, ◌&&◌, ◌||◌, Option, none, some,
  List, [], ◌∷◌, Text, ◌==◌, ==_iff, Map, lookup, insert, lookup-insert, if◌then◌else◌, arith,
}
use cloud_provider_vsphere.Machines.{Device}
use cloud_provider_vsphere.Machines.Marks.{
  NodeVolumeMap, marks_or_new, set_node_volume_map, disk_file, mark_same, mark_path,
  verify_volume_paths_for_vm, vol_paths_map, is_true, mark_wanted, mark_devices,
  verify_volume_paths_for_vm_devices,
}

-- The mark of a volume of a node.
abbrev pub mark_of : NodeVolumeMap → Text → Text → Option Bool
mark_of m node path = lookup path (marks_or_new (lookup node m))

-- A disk has the file.
abbrev pub is_file : Option Text → Text → Bool
is_file none path = false
is_file (some file) path = file == path

abbrev pub has_disk : List Device → Text → Bool
has_disk [] path = false
has_disk (d ∷ ds) path = is_file (disk_file d) path || has_disk ds path

abbrev pub is_among : Text → List Text → Bool
is_among path [] = false
is_among path (q ∷ qs) = (q == path) || is_among path qs

-- A mark that is set under a condition.
abbrev pub marked_if : Bool → Option Bool → Option Bool
marked_if b old = if b then some true else old

mark_of-set :
    (m : NodeVolumeMap) (path node at what : Text)
    → mark_of (set_node_volume_map m path node true) at what
      ≡ marked_if ((node == at) && (path == what)) (mark_of m at what)
unfolding set_node_volume_map
mark_of-set m path node at what =
    ap (λ o. lookup what (marks_or_new o))
      (lookup-insert node at (insert path true (marks_or_new (lookup node m))) m)
    ∙ (elim (Bool-cases (node == at)) [
      | inl same ↦
          ap
            (λ b. lookup what (
              marks_or_new (
                if b then some (insert path true (marks_or_new (lookup node m))) else lookup at m)))
            same
          ∙ lookup-insert path what true (marks_or_new (lookup node m))
          ∙ ap (λ n. if path == what then some true else lookup what (marks_or_new (lookup n m)))
              ((==_iff node at).0 same)
          ∙ ap (λ b. marked_if (b && (path == what)) (mark_of m at what)) (sym same)
      | inr other ↦
          ap
            (λ b. lookup what (
              marks_or_new (
                if b then some (insert path true (marks_or_new (lookup node m))) else lookup at m)))
            other
          ∙ ap (λ b. marked_if (b && (path == what)) (mark_of m at what)) (sym other)
    ])

marked_if-or :
    (a b : Bool) (old : Option Bool) → marked_if a (marked_if b old) ≡ marked_if (b || a) old
marked_if-or true true old = refl
marked_if-or true false old = refl
marked_if-or false true old = refl
marked_if-or false false old = refl

not-marked : (a b : Bool) (old : Option Bool) → old ≡ marked_if (a && (b && false)) old
not-marked true true old = refl
not-marked true false old = refl
not-marked false b old = refl

files_or : (a p f h : Bool) → ((a && (p && f)) || (a && (p && h))) ≡ (a && (p && (f || h)))
files_or false p f h = refl
files_or true false f h = refl
files_or true true f h = refl

paths_or : (a p q d : Bool) → ((a && (p && d)) || (a && (q && d))) ≡ (a && ((p || q) && d))
paths_or false p q d = refl
paths_or true false q d = refl
paths_or true true q true = refl
paths_or true true true false = refl
paths_or true true false false = refl

-- One device, for one path and for a set of paths.
mark_same-mark_of :
    (path node : Text) (o : Option Text) (m : NodeVolumeMap) (at what : Text)
    → mark_of (mark_same path node o m) at what
      ≡ marked_if ((node == at) && ((path == what) && is_file o what)) (mark_of m at what)
mark_same-mark_of path node none m at what =
    not-marked (node == at) (path == what) (mark_of m at what)
mark_same-mark_of path node (some file) m at what = elim (Bool-cases (file == path)) [
  | inl same ↦
      let both : (path == what) ≡ ((path == what) && (file == what)) =
        ground (arith, ==_iff path what, ==_iff file what, ==_iff file path, same) in
      ap (λ b. mark_of (if b then set_node_volume_map m path node true else m) at what) same
      ∙ mark_of-set m path node at what
      ∙ ap (λ b. marked_if ((node == at) && b) (mark_of m at what)) both
  | inr other ↦
      let neither : false ≡ ((path == what) && (file == what)) =
        ground (arith, ==_iff path what, ==_iff file what, ==_iff file path, other) in
      ap (λ b. mark_of (if b then set_node_volume_map m path node true else m) at what) other
      ∙ not-marked (node == at) true (mark_of m at what)
      ∙ ap (λ b. marked_if ((node == at) && b) (mark_of m at what)) neither
]

mark_wanted-mark_of :
    (set : Map Bool) (node : Text) (o : Option Text) (m : NodeVolumeMap) (at what : Text)
    → mark_of (mark_wanted set node o m) at what
      ≡ marked_if
          ((node == at) && (is_true (lookup what set) && is_file o what))
          (mark_of m at what)
mark_wanted-mark_of set node none m at what =
    not-marked (node == at) (is_true (lookup what set)) (mark_of m at what)
mark_wanted-mark_of set node (some file) m at what = elim (Bool-cases (is_true (lookup file set))) [
  | inl in_set ↦
      ap (λ b. mark_of (if b then set_node_volume_map m file node true else m) at what) in_set
      ∙ mark_of-set m file node at what
      ∙ ap (λ b. marked_if ((node == at) && b) (mark_of m at what)) (held in_set)
  | inr outside ↦
      ap (λ b. mark_of (if b then set_node_volume_map m file node true else m) at what) outside
      ∙ not-marked (node == at) true (mark_of m at what)
      ∙ ap (λ b. marked_if ((node == at) && b) (mark_of m at what)) (kept outside)
]
  where
    at_file : (file == what) ≡ true → is_true (lookup file set) ≡ is_true (lookup what set)
    at_file e = ap (λ f. is_true (lookup f set)) ((==_iff file what).0 e)

    held :
        is_true (lookup file set) ≡ true
        → (file == what) ≡ (is_true (lookup what set) && (file == what))
    held e = elim (Bool-cases (file == what)) [
      | inl same ↦ ground (arith, e, same, at_file same)
      | inr other ↦ ground (arith, other)
    ]

    kept : is_true (lookup file set) ≡ false → false ≡ (is_true (lookup what set) && (file == what))
    kept e = elim (Bool-cases (file == what)) [
      | inl same ↦ ground (arith, e, same, at_file same)
      | inr other ↦ ground (arith, other)
    ]

mark_path-mark_of :
    (ds : List Device) (path node : Text) (m : NodeVolumeMap) (at what : Text)
    → mark_of (mark_path ds path node m) at what
      ≡ marked_if ((node == at) && ((path == what) && has_disk ds what)) (mark_of m at what)
unfolding mark_path
mark_path-mark_of [] path node m at what =
    not-marked (node == at) (path == what) (mark_of m at what)
mark_path-mark_of (d ∷ ds) path node m at what =
    mark_path-mark_of ds path node (mark_same path node (disk_file d) m) at what
    ∙ ap (marked_if ((node == at) && ((path == what) && has_disk ds what)))
        (mark_same-mark_of path node (disk_file d) m at what)
    ∙ marked_if-or ((node == at) && ((path == what) && has_disk ds what))
        ((node == at) && ((path == what) && is_file (disk_file d) what)) (mark_of m at what)
    ∙ ap (λ b. marked_if b (mark_of m at what))
        (files_or (node == at) (path == what) (is_file (disk_file d) what) (has_disk ds what))

mark_devices-mark_of :
    (ds : List Device) (set : Map Bool) (node : Text) (m : NodeVolumeMap) (at what : Text)
    → mark_of (mark_devices ds set node m) at what
      ≡ marked_if
          ((node == at) && (is_true (lookup what set) && has_disk ds what))
          (mark_of m at what)
unfolding mark_devices
mark_devices-mark_of [] set node m at what =
    not-marked (node == at) (is_true (lookup what set)) (mark_of m at what)
mark_devices-mark_of (d ∷ ds) set node m at what =
    mark_devices-mark_of ds set node (mark_wanted set node (disk_file d) m) at what
    ∙ ap (marked_if ((node == at) && (is_true (lookup what set) && has_disk ds what)))
        (mark_wanted-mark_of set node (disk_file d) m at what)
    ∙ marked_if-or ((node == at) && (is_true (lookup what set) && has_disk ds what))
        ((node == at) && (is_true (lookup what set) && is_file (disk_file d) what))
        (mark_of m at what)
    ∙ ap (λ b. marked_if b (mark_of m at what))
        (files_or (node == at) (is_true (lookup what set)) (is_file (disk_file d) what)
          (has_disk ds what))

-- The paths of the set.
vol_paths_map-is_among :
    (paths : List Text) (set : Map Bool) (path : Text)
    → is_true (lookup path (vol_paths_map paths set))
      ≡ (is_among path paths || is_true (lookup path set))
unfolding vol_paths_map
vol_paths_map-is_among [] set path = refl
vol_paths_map-is_among (q ∷ qs) set path =
    vol_paths_map-is_among qs (insert q true set) path
    ∙ ap (λ o. is_among path qs || is_true o) (lookup-insert q path true set)
    ∙ turned (is_among path qs) (q == path) (lookup path set)
  where
    turned :
        (a b : Bool) (o : Option Bool)
        → (a || is_true (if b then some true else o)) ≡ ((b || a) || is_true o)
    turned true true o = refl
    turned true false o = refl
    turned false true o = refl
    turned false false o = refl

verify-mark_of :
    (devices : List Device) (paths : List Text) (node : Text) (m : NodeVolumeMap) (at what : Text)
    → mark_of (verify_volume_paths_for_vm devices paths node m) at what
      ≡ marked_if
          ((node == at) && (is_among what paths && has_disk devices what))
          (mark_of m at what)
unfolding verify_volume_paths_for_vm
verify-mark_of devices [] node m at what = at_node (node == at)
  where
    at_node : (a : Bool) → mark_of m at what ≡ marked_if (a && false) (mark_of m at what)
    at_node true = refl
    at_node false = refl
verify-mark_of devices (path ∷ paths) node m at what =
    verify-mark_of devices paths node (mark_path devices path node m) at what
    ∙ ap (marked_if ((node == at) && (is_among what paths && has_disk devices what)))
        (mark_path-mark_of devices path node m at what)
    ∙ marked_if-or ((node == at) && (is_among what paths && has_disk devices what))
        ((node == at) && ((path == what) && has_disk devices what)) (mark_of m at what)
    ∙ ap (λ b. marked_if b (mark_of m at what))
        (paths_or (node == at) (path == what) (is_among what paths) (has_disk devices what))

-- verifyVolumePathsForVM, which loops over the devices for each path, and
-- VerifyVolumePathsForVMDevices, which loops over them once, leave the same mark for every volume of
-- every node, whatever the map was before: true for the volumes asked for that a virtual disk of the
-- machine has as its file, and the mark from before for all others.
pub verify_volume_paths_for_vm_devices-mark_of :
    (devices : List Device) (paths : List Text) (node : Text) (m : NodeVolumeMap) (at what : Text)
    → (mark_of (verify_volume_paths_for_vm_devices devices paths node m) at what
        ≡ mark_of (verify_volume_paths_for_vm devices paths node m) at what)
      × (mark_of (verify_volume_paths_for_vm devices paths node m) at what
          ≡ marked_if
              ((node == at) && (is_among what paths && has_disk devices what))
              (mark_of m at what))
unfolding verify_volume_paths_for_vm_devices
verify_volume_paths_for_vm_devices-mark_of devices paths node m at what = (
  mark_devices-mark_of devices (vol_paths_map paths []) node m at what
      ∙ ap (λ b. marked_if ((node == at) && (b && has_disk devices what)) (mark_of m at what))
          (vol_paths_map-is_among paths [] what ∙ or_nothing (is_among what paths))
      ∙ sym (verify-mark_of devices paths node m at what),
  verify-mark_of devices paths node m at what,
)
  where
    or_nothing : (b : Bool) → (b || is_true (lookup what [])) ≡ b
    or_nothing true = refl
    or_nothing false = refl
