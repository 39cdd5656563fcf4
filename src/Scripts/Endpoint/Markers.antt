-- ===== src/Scripts/Endpoint/Markers.antt =====
-- requireMarker, insertBeforeMarker and patchServer of scripts/new-endpoint.go, over a store of files by
-- path. A line is a marker where it is the marker's comment behind white space.
pub mod Kept
use go_skeleton.Base.{
  ℕ, ◌≡◌, refl, ap, ◌∙◌, Bool, true, false, ◌||◌, Option, none, some, List, [], ◌∷◌, ◌++◌, Result,
  ok, err, All, if◌then◌else◌, ◌==◌, arith, Bool-cases, inl, inr,
}
use go_skeleton.Base.Text.{Bytes, codes, beq, between, split, join}
use go_skeleton.Base.Dict.{Dict, lookup, insert, lookup-insert_self}

abbrev is_blank : ℕ → Bool
is_blank c = c == 32 || (between 9 c 10 || between 12 c 13)

unfoldable pub after_blanks : Bytes → Bytes
after_blanks [] = []
after_blanks (c ∷ s) = let rest = after_blanks s in if is_blank c then rest else c ∷ s

unfoldable pub is_marker : Bytes → Bytes → Bool
unfolding after_blanks
is_marker name line = beq (after_blanks line) (codes "// NEH " ++ name)

unfoldable pub has_marker : Bytes → List Bytes → Bool
has_marker name [] = false
has_marker name (l ∷ lines) = is_marker name l || has_marker name lines

abbrev pub cons_lines : Bytes → Option (List Bytes) → Option (List Bytes)
cons_lines l none = none
cons_lines l (some lines) = some (l ∷ lines)

-- The lines with a new one before the first marker; `none` if there is no marker.
unfoldable pub insert_before : Bytes → Bytes → List Bytes → Option (List Bytes)
insert_before name line [] = none
insert_before name line (l ∷ lines) =
    if is_marker name l
    then some (line ∷ l ∷ lines)
    else cons_lines l (insert_before name line lines)

pub data PatchError : Type 0 where
  no_file no_marker : PatchError

abbrev pub Files : Type 0
Files = Dict Bytes

abbrev written : Files → Bytes → Option (List Bytes) → Result PatchError Files
written files path none = err no_marker
written files path (some lines) = ok (insert path (join (b'\n' ∷ []) lines) files)

abbrev patched : Files → Bytes → Bytes → Bytes → Option Bytes → Result PatchError Files
patched files path name line none = err no_file
patched files path name line (some content) =
    written files path (insert_before name line (split b'\n' content))

unfoldable pub insert_before_marker : Bytes → Bytes → Bytes → Files → Result PatchError Files
unfolding insert_before
insert_before_marker path name line files = patched files path name line (lookup path files)

abbrev pub and_then :
    Result PatchError Files → (Files → Result PatchError Files) → Result PatchError Files
and_then (err e) next = err e
and_then (ok files) next = next files

-- The lines of patches, each before its marker, up to the first error.
unfoldable pub insert_all : Bytes → List (Bytes × Bytes) → Files → Result PatchError Files
insert_all path [] files = ok files
insert_all path ((name, line) ∷ patches) files =
    and_then (insert_before_marker path name line files) (insert_all path patches)

-- What patchServer adds, by marker.
abbrev pub server_patches : Bytes → Bytes → List (Bytes × Bytes)
server_patches name lower =
    (
      codes "handlers-fields",
      codes "\t" ++ (name ++ (codes " *handler." ++ (name ++ codes "Handler"))),
    )
    ∷ (
      codes "handlers-deps",
      codes "\t"
          ++ (lower ++ (codes "Repository := repository.New" ++ (name ++ codes "Repository(db)"))),
    )
    ∷ (
      codes "handlers-deps",
      codes "\t"
          ++ (lower
              ++ (codes "Service := service.New"
                  ++ (name ++ (codes "Service(" ++ (lower ++ codes "Repository, reg.Queue)"))))),
    )
    ∷ (
      codes "handlers-construct",
      codes "\t"
          ++ (lower
              ++ (codes "H := handler.New"
                  ++ (name ++ (codes "Handler(" ++ (lower ++ codes "Service)"))))),
    )
    ∷ (codes "handlers-return", codes "\t\t" ++ (name ++ (codes ": " ++ (lower ++ codes "H,"))))
    ∷ []

abbrev pub server_file : Bytes
server_file = codes "internal/server.go"

abbrev pub server_markers : List Bytes
server_markers =
    codes "handlers-fields"
    ∷ codes "handlers-deps"
    ∷ codes "handlers-construct"
    ∷ codes "handlers-return"
    ∷ []

unfoldable pub patch_server : Bytes → Bytes → Files → Result PatchError Files
patch_server name lower files = insert_all server_file (server_patches name lower) files
