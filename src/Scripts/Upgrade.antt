-- ===== src/Scripts/Upgrade.antt =====
-- scripts/mod-upgrade.go: which updates of the modules are applied, and their application with its
-- rollback. go, make and git are not part of the repository: `Tools`.
pub mod Choice
pub mod Rollback
mod Tests
use go_skeleton.Base.{
  ◌≡◌, Bool, true, false, not, ◌||◌, Option, none, some, List, [], ◌∷◌, if◌then◌else◌,
}
use go_skeleton.Base.Text.{Bytes, codes, beq, is_empty, has_prefix, cut}

pub record Upgrade : Type 0 where
  pub path : Bytes
  pub cur : Bytes
  pub next : Bytes

-- A module of `go list -m -u -json all`, with the version of its update if it has one.
pub record ListedModule : Type 0 where
  pub path : Bytes
  pub version : Bytes
  pub indirect : Bool
  pub update : Option Bytes

abbrev pub add_update : ListedModule → Option Bytes → List Upgrade → List Upgrade
add_update m none rest = rest
add_update m (some next) rest =
    if m.indirect then rest else record { path = m.path; cur = m.version; next = next } ∷ rest

unfoldable pub list_updates : List ListedModule → List Upgrade
list_updates [] = []
list_updates (m ∷ ms) = add_update m m.update (list_updates ms)

abbrev part_before : Bytes → Option (Bytes × Bytes) → Bytes
part_before v none = v
part_before v (some (a, b)) = a

-- Up to the first dot; empty where the version does not begin with a v.
unfoldable pub version_major : Bytes → Bytes
version_major v = if has_prefix v (codes "v") then part_before v (cut b'.' v) else []

unfoldable pub is_major_or_unstable_bump : Bytes → Bytes → Bool
is_major_or_unstable_bump cur next =
    let cur_major = version_major cur in
    let next_major = version_major next in
    if is_empty cur_major || is_empty next_major
    then true
    else if beq cur_major next_major
    then beq cur_major (codes "v0")
    else true

-- The updates that are applied.
unfoldable pub patch_minor : List Upgrade → List Upgrade
patch_minor [] = []
patch_minor (u ∷ us) =
    let rest = patch_minor us in if is_major_or_unstable_bump u.cur u.next then rest else u ∷ rest

pub data Failure : Type 0 where
  git_failed already_dirty get_failed tidy_failed verify_failed : Failure

-- The commands, on a checkout of the repository. `history` is what git has stored, which go and make leave
-- alone, and `files` are go.mod and go.sum. `dirty` is what `git diff --quiet` says of them, `none` where
-- it fails; `stash` is the commit of `git stash create`, `none` where nothing differs from HEAD or where
-- it fails; `checkout` of it, or of HEAD, brings back the files that were there when it was made, if it
-- succeeds, as its flag says.
pub record Tools : Type 1 where
  pub Checkout : Type 0
  pub History : Type 0
  pub Files : Type 0
  pub Commit : Type 0
  pub history : Checkout → History
  pub files : Checkout → Files
  pub dirty : Checkout → Option Bool
  pub stash : Checkout → Option Commit
  pub checkout : Option Commit → Checkout → Checkout × Bool
  pub get : Upgrade → Checkout → Checkout × Bool
  pub tidy : Checkout → Checkout × Bool
  pub verify : Checkout → Checkout × Bool
  pub history-get : (u : Upgrade) (s : Checkout) → history (get u s).0 ≡ history s
  pub history-tidy : (s : Checkout) → history (tidy s).0 ≡ history s
  pub history-verify : (s : Checkout) → history (verify s).0 ≡ history s
  pub files-checkout :
      (s s' : Checkout)
      → dirty s ≡ some false
      → history s' ≡ history s
      → (checkout (stash s) s').1 ≡ true
      → files (checkout (stash s) s').0 ≡ files s

module _ (t : Tools) where
  open t use {Checkout, Commit, dirty, stash, checkout, get, tidy, verify}

  -- What follows a command: the rest, or the rollback, whose own error is ignored.
  abbrev pub unless_failed :
      Option Commit
      → Failure
      → (Checkout → Checkout × Option Failure)
      → Checkout × Bool
      → Checkout × Option Failure
  unless_failed base failure next (s, true) = next s
  unless_failed base failure next (s, false) = ((checkout base s).0, some failure)

  -- One module after the other.
  unfoldable pub apply_items : Option Commit → List Upgrade → Checkout → Checkout × Option Failure
  apply_items base [] s = (s, none)
  apply_items base (u ∷ us) s =
      unless_failed base get_failed
        (λ s1.
          unless_failed base tidy_failed
            (λ s2. unless_failed base verify_failed (apply_items base us) (verify s2)) (tidy s1))
        (get u s)

  abbrev pub apply_with : List Upgrade → Checkout → Option Bool → Checkout × Option Failure
  apply_with us s none = (s, some git_failed)
  apply_with us s (some true) = (s, some already_dirty)
  apply_with us s (some false) = apply_items (stash s) us s

  unfoldable pub apply : List Upgrade → Checkout → Checkout × Option Failure
  unfolding apply_items
  apply us s = apply_with us s (dirty s)

  -- `main`, for what go lists; the flag is APPLY=1.
  unfoldable pub upgrade_modules : Bool → List ListedModule → Checkout → Checkout × Option Failure
  unfolding apply
  upgrade_modules true ms s = apply (patch_minor (list_updates ms)) s
  upgrade_modules false ms s = (s, none)
