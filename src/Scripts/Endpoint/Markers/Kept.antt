-- ===== src/Scripts/Endpoint/Markers/Kept.antt =====
-- The insertions of scripts/new-endpoint.go succeed where the markers stand, and keep them.
use go_skeleton.Base.{
  ℕ, ◌≡◌, refl, ap, ◌∙◌, Bool, true, false, not, some, List, [], ◌∷◌, ◌++◌, ok, All, all, ◌==◌,
  arith, Bool-cases, inl, inr,
}
use go_skeleton.Base.Text.{Bytes, codes, split, join, prepend}
use go_skeleton.Base.Dict.{lookup, insert, lookup-insert_self}
use go_skeleton.Scripts.Endpoint.{is_alnum}
use go_skeleton.Scripts.Endpoint.Markers.{
  is_marker, has_marker, insert_before, Files, written, patched, insert_before_marker, and_then,
  insert_all, server_patches, server_file, server_markers, patch_server,
}

-- A line without its end.
abbrev is_line : Bytes → Bool
is_line = all (λ c. not (c == 10))

abbrev AllLines : List Bytes → Type 0
AllLines = All (λ l. is_line l ≡ true)

prepend-AllLines :
    (c : ℕ) (ls : List Bytes) → (c == 10) ≡ false → AllLines ls → AllLines (prepend c ls)
prepend-AllLines c [] e h = (rw e refl, tt)
prepend-AllLines c (l ∷ ls) e (p, h) = (rw (e, p) refl, h)

split-AllLines : (s : Bytes) → AllLines (split 10 s)
unfolding split
split-AllLines [] = (refl, tt)
split-AllLines (c ∷ s) = elim (Bool-cases (c == 10)) [
  | inl e ↦ rw e (refl, split-AllLines s)
  | inr e ↦ rw e (prepend-AllLines c (split 10 s) e (split-AllLines s))
]

split_line : (l : Bytes) → is_line l ≡ true → split 10 l ≡ l ∷ []
unfolding split
split_line [] h = refl
split_line (c ∷ l) h =
    let e : (c == 10) ≡ false = ground (arith, h) in
    let rest : is_line l ≡ true = ground (arith, h) in rw (e, split_line l rest) refl

split_more : (l s : Bytes) → is_line l ≡ true → split 10 (l ++ 10 ∷ s) ≡ l ∷ split 10 s
unfolding split
split_more [] s h = refl
split_more (c ∷ l) s h =
    let e : (c == 10) ≡ false = ground (arith, h) in
    let rest : is_line l ≡ true = ground (arith, h) in rw (e, split_more l s rest) refl

-- Lines that are written are read back.
split-join :
    (l : Bytes) (ls : List Bytes) → AllLines (l ∷ ls) → split 10 (join (10 ∷ []) (l ∷ ls)) ≡ l ∷ ls
unfolding join
split-join l [] (h, _) = split_line l h
split-join l (m ∷ ls) (h, k) =
    split_more l (join (10 ∷ []) (m ∷ ls)) h ∙ ap (λ x. l ∷ x) (split-join m ls k)

-- The second list has the lines of the first in their order, and perhaps more.
pub data Extends : List Bytes → List Bytes → Type 0 where
  done : Extends [] []
  keep : {xs ys : List Bytes} (x : Bytes) → Extends xs ys → Extends (x ∷ xs) (x ∷ ys)
  add : {xs ys : List Bytes} (y : Bytes) → Extends xs ys → Extends xs (y ∷ ys)

Extends-refl : (xs : List Bytes) → Extends xs xs
Extends-refl [] = done
Extends-refl (x ∷ xs) = keep x (Extends-refl xs)

Extends-trans : {xs ys zs : List Bytes} → Extends xs ys → Extends ys zs → Extends xs zs
Extends-trans e (add z f) = add z (Extends-trans e f)
Extends-trans (keep x e) (keep _ f) = keep x (Extends-trans e f)
Extends-trans (add y e) (keep _ f) = add y (Extends-trans e f)
Extends-trans done done = done

has_marker-Extends :
    {xs ys : List Bytes} (name : Bytes)
    → Extends xs ys
    → has_marker name xs ≡ true
    → has_marker name ys ≡ true
unfolding has_marker
has_marker-Extends name done h = h
has_marker-Extends name (keep x e) h = elim (Bool-cases (is_marker name x)) [
  | inl p ↦ rw p refl
  | inr p ↦ rw p (has_marker-Extends name e (rw p at h))
]
has_marker-Extends name (add y e) h = elim (Bool-cases (is_marker name y)) [
  | inl p ↦ rw p refl
  | inr p ↦ rw p (has_marker-Extends name e h)
]

insert_before_ok :
    (name line : Bytes) (xs : List Bytes)
    → has_marker name xs ≡ true
    → is_line line ≡ true
    → AllLines xs
    → (y : Bytes) × (ys : List Bytes) × (insert_before name line xs ≡ some (y ∷ ys))
      × AllLines (y ∷ ys)
      × Extends xs (y ∷ ys)
unfolding has_marker insert_before
insert_before_ok name line [] h l k = cc
insert_before_ok name line (x ∷ xs) h l (p, k) = elim (Bool-cases (is_marker name x)) [
  | inl e ↦ (line, x ∷ xs, rw e refl, (l, (p, k)), add line (Extends-refl (x ∷ xs)))
  | inr e ↦
      let (y, ys, ends, lines, ext) = insert_before_ok name line xs (rw e at h) l k in
      (x, y ∷ ys, rw (e, ends) refl, (p, lines), keep x ext)
]

-- The file has lines that extend these.
abbrev pub HasLines : Files → Bytes → List Bytes → Type 0
HasLines files path xs =
    (content : Bytes) × (lookup path files ≡ some content) × Extends xs (split 10 content)

insert_before_marker_ok :
    (path name line : Bytes) (xs : List Bytes) (files : Files)
    → has_marker name xs ≡ true
    → is_line line ≡ true
    → HasLines files path xs
    → (files' : Files) × (insert_before_marker path name line files ≡ ok files')
      × HasLines files' path xs
unfolding insert_before_marker
insert_before_marker_ok path name line xs files h l (content, found, ext) =
    let (y, ys, ends, lines, more) =
      insert_before_ok name line (split 10 content) (has_marker-Extends name ext h) l
        (split-AllLines content) in
    let new = join (10 ∷ []) (y ∷ ys) in
    (
      insert path new files,
      ap (patched files path name line) found ∙ ap (written files path) ends,
      (new, lookup-insert_self path new files, rw (split-join y ys lines) (Extends-trans ext more)),
    )

-- Patches of single lines, for markers among those lines.
abbrev Fits : List Bytes → List (Bytes × Bytes) → Type 0
Fits xs = All (λ (name, line). (has_marker name xs ≡ true) × (is_line line ≡ true))

insert_all_ok :
    (path : Bytes) (patches : List (Bytes × Bytes)) (xs : List Bytes) (files : Files)
    → Fits xs patches
    → HasLines files path xs
    → (files' : Files) × (insert_all path patches files ≡ ok files') × HasLines files' path xs
unfolding insert_all
insert_all_ok path [] xs files h k = (files, refl, k)
insert_all_ok path ((name, line) ∷ patches) xs files ((m, l), h) k =
    let (files', e, k') = insert_before_marker_ok path name line xs files m l k in
    let (files'', e', k'') = insert_all_ok path patches xs files' h k' in
    (files'', ap (λ r. and_then r (insert_all path patches)) e ∙ e', k'')

line_of_alnum : (s : Bytes) → all is_alnum s ≡ true → is_line s ≡ true
line_of_alnum [] h = refl
line_of_alnum (c ∷ s) h = ground (arith, h, line_of_alnum s)

line_append : (s t : Bytes) → is_line s ≡ true → is_line t ≡ true → is_line (s ++ t) ≡ true
line_append [] t h k = k
line_append (c ∷ s) t h k = ground (arith, line_append s t, h)

-- For a name of letters and digits, and internal/server.go with its four markers, patchServer succeeds, and
-- every line of the file stands in it as before, with the markers, so that the next resource can be added.
pub patch_server_ok :
    (name lower content : Bytes) (files : Files)
    → all is_alnum name ≡ true
    → all is_alnum lower ≡ true
    → lookup server_file files ≡ some content
    → All (λ m. has_marker m (split 10 content) ≡ true) server_markers
    → (files' : Files) × (patch_server name lower files ≡ ok files')
      × HasLines files' server_file (split 10 content)
unfolding patch_server
patch_server_ok name lower content files n l found (f, (d, (c, (r, _)))) =
    let a = line_of_alnum name n in
    let b = line_of_alnum lower l in
    let field = line_append name _ a (line_append name (codes "Handler") a refl) in
    let repository = line_append lower _ b (line_append name (codes "Repository(db)") a refl) in
    let service =
      line_append lower _ b
        (line_append name _ a (line_append lower (codes "Repository, reg.Queue)") b refl)) in
    let construct =
      line_append lower _ b (line_append name _ a (line_append lower (codes "Service)") b refl)) in
    let answer = line_append name _ a (line_append lower (codes "H,") b refl) in
    insert_all_ok server_file (server_patches name lower) (split 10 content) files
      ((f, field), ((d, repository), ((d, service), ((c, construct), ((r, answer), tt)))))
      (content, found, Extends-refl (split 10 content))
