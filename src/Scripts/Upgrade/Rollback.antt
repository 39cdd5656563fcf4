-- ===== src/Scripts/Upgrade/Rollback.antt =====
-- What scripts/mod-upgrade.go leaves, where a command fails and where none does.
use go_skeleton.Base.{◌≡◌, Bool, true, false, ◌⊎◌, Option, none, some, List, [], ◌∷◌}
use go_skeleton.Scripts.Upgrade.{
  Upgrade, Failure, Tools, git_failed, already_dirty, get_failed, tidy_failed, verify_failed,
}

module _ (t : Tools) where
  open t use {
    Checkout, History, Commit, history, files, dirty, stash, checkout, get, tidy, verify,
    history-get, history-tidy, history-verify, files-checkout,
  }

  abbrev got : Upgrade → Checkout → Checkout
  got u s = (get u s).0

  abbrev tidied : Upgrade → Checkout → Checkout
  tidied u s = (tidy (got u s)).0

  abbrev verified : Upgrade → Checkout → Checkout
  verified u s = (verify (tidied u s)).0

  -- The three commands for an upgrade succeed.
  pub record Succeeds (u : Upgrade) (s : Checkout) : Type 0 where
    pub gets : (get u s).1 ≡ true
    pub tidies : (tidy (got u s)).1 ≡ true
    pub verifies : (verify (tidied u s)).1 ≡ true

  -- The upgrades have all succeeded, one after the other, from one checkout to another.
  pub data Applied : List Upgrade → Checkout → Checkout → Type 0 where
    all_done : (s s' : Checkout) → s' ≡ s → Applied [] s s'
    one_done :
        (u : Upgrade) (us : List Upgrade) (s s' : Checkout)
        → Succeeds u s
        → Applied us (verified u s) s'
        → Applied (u ∷ us) s s'

  -- A command has failed and left a checkout, after those before it have succeeded.
  pub data Fails : List Upgrade → Checkout → Failure → Checkout → Type 0 where
    at_get :
        (u : Upgrade) (us : List Upgrade) (s s' : Checkout)
        → (get u s).1 ≡ false
        → s' ≡ got u s
        → Fails (u ∷ us) s get_failed s'
    at_tidy :
        (u : Upgrade) (us : List Upgrade) (s s' : Checkout)
        → (get u s).1 ≡ true
        → (tidy (got u s)).1 ≡ false
        → s' ≡ tidied u s
        → Fails (u ∷ us) s tidy_failed s'
    at_verify :
        (u : Upgrade) (us : List Upgrade) (s s' : Checkout)
        → (get u s).1 ≡ true
        → (tidy (got u s)).1 ≡ true
        → (verify (tidied u s)).1 ≡ false
        → s' ≡ verified u s
        → Fails (u ∷ us) s verify_failed s'
    later :
        (u : Upgrade) (us : List Upgrade) (s s' : Checkout) (f : Failure)
        → Succeeds u s
        → Fails us (verified u s) f s'
        → Fails (u ∷ us) s f s'

  -- How the loop over the upgrades ends.
  abbrev LoopEnds : Checkout → List Upgrade → Checkout → Checkout × Option Failure → Type 0
  LoopEnds s0 us s r =
      (Applied us s r.0 × (r.1 ≡ none))
      ⊎ ((f : Failure) × (s' : Checkout) × Fails us s f s'
          × (history s' ≡ history s0)
          × (r ≡ ((checkout (stash s0) s').0, some f)))

  -- How mod-upgrade ends for the chosen updates: without a change, with all of them applied, or rolled back
  -- to the files of the start, unless git's checkout has failed itself.
  pub data Ends (s : Checkout) (us : List Upgrade) (r : Checkout × Option Failure)
      : Bool → Type 0 where
    dry_run : r ≡ (s, none) → Ends s us r false
    no_state : dirty s ≡ none → r ≡ (s, some git_failed) → Ends s us r true
    refused : dirty s ≡ some true → r ≡ (s, some already_dirty) → Ends s us r true
    upgraded : dirty s ≡ some false → Applied us s r.0 → r.1 ≡ none → Ends s us r true
    rolled_back :
        (f : Failure) (s' : Checkout)
        → dirty s ≡ some false
        → Fails us s f s'
        → r.1 ≡ some f
        → (files r.0 ≡ files s) ⊎ ((checkout (stash s) s').1 ≡ false)
        → Ends s us r true
