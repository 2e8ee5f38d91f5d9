-- ===== src/Machines/Paths.antt =====
-- pkg/common/vclib/utils.go, RemoveStorageClusterORFolderNameFromVDiskPath. The paths have no line
-- breaks.
use cloud_provider_vsphere.Common.{
  not, ◌&&◌, nat_eq, Option, none, some, List, [], ◌∷◌, ◌++◌, Text, codes, is_empty, ◌==◌, split,
  strip_prefix, Outcome, ok, ◌>>=◌, deref, if◌then◌else◌,
}

-- What stands before the first closing bracket, if there is one.
abbrev pub up_to_bracket : Text → Option Text
up_to_bracket [] = none
up_to_bracket (c ∷ s) =
    if nat_eq c b']'
    then some []
    else (elim (up_to_bracket s) [ none ↦ none | some t ↦ some (c ∷ t) ])

-- The match of `\[(.*?)\]`
abbrev pub bracketed : Text → Option Text
bracketed [] = none
bracketed (c ∷ s) = if nat_eq c b'[' then up_to_bracket s else bracketed s

-- filepath.Base: slashes at the end are cut off.
abbrev pub trim_slashes : Text → Text
trim_slashes [] = []
trim_slashes (c ∷ s) = let r = trim_slashes s in if nat_eq c b'/' && is_empty r then [] else c ∷ r

abbrev pub last_of : Text → List Text → Text
last_of t [] = t
last_of t (u ∷ us) = last_of u us

unfoldable pub base : Text → Text
unfolding split
base s =
    if is_empty s
    then codes "."
    else (if is_empty (trim_slashes s) then codes "/" else last_of [] (split b'/' (trim_slashes s)))

-- strings.Replace of the first occurrence.
abbrev pub put_before : Option Text → Text → Text → Text
put_before none new s = s
put_before (some rest) new s = new ++ rest

abbrev pub replace_first : Text → Text → Text → Text
replace_first [] old new = put_before (strip_prefix old []) new []
replace_first (c ∷ s) old new =
    let further = c ∷ replace_first s old new in
    elim (strip_prefix old (c ∷ s)) [ none ↦ further | some rest ↦ new ++ rest ]

-- A path without a datastore in brackets is an index into nil.
unfoldable pub remove_storage_cluster_or_folder_name : Text → Outcome Text
unfolding base strip_prefix
remove_storage_cluster_or_folder_name path = do
  datastore ← deref (bracketed path)
  ok (
      if not (base datastore == datastore)
      then replace_first path datastore (base datastore)
      else path)
