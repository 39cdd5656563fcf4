-- ===== src/Scripts/Upgrade/Tests.antt =====
-- mod-upgrade with tools for which the files are a number that every command changes.
use go_skeleton.Base.{ℕ, suc, ◌≡◌, refl, true, false, not, none, some, List, [], ◌∷◌, ◌==◌, arith}
use go_skeleton.Base.Text.{codes, beq, has_prefix, cut}
use go_skeleton.Scripts.Upgrade.{
  Upgrade, ListedModule, Tools, upgrade_modules, apply, apply_items, patch_minor, list_updates,
  is_major_or_unstable_bump, version_major, verify_failed,
}

-- The committed files and the files of the checkout.
record Numbers : Type 0 where
  committed : ℕ
  current : ℕ

abbrev tools : Tools
tools = record {
  Checkout = Numbers;
  History = ℕ;
  Files = ℕ;
  Commit = ℕ;
  history = λ s. s.committed;
  files = λ s. s.current;
  dirty = λ s. some (not (s.current == s.committed));
  stash = λ s. none;
  checkout = λ base s. (record s { current = s.committed }, true);
  get = λ u s. (record s { current = suc s.current }, true);
  tidy = λ s. (s, true);
  verify = λ s. (s, false);
  history-get = λ u s. refl;
  history-tidy = λ s. refl;
  history-verify = λ s. refl;
  files-checkout = λ s s' clean same back. ground arith;
}

abbrev listed : List ListedModule
listed =
    record {
      path = codes "a";
      version = codes "v1.2.3";
      indirect = false;
      update = some (codes "v1.3.0");
    }
    ∷ record {
      path = codes "b";
      version = codes "v0.1.0";
      indirect = false;
      update = some (codes "v0.2.0");
    }
    ∷ []

abbrev numbers : Numbers
numbers = record { committed = 4; current = 4 }

upgrade_rolled_back : upgrade_modules tools true listed numbers ≡ (numbers, some verify_failed)
unfolding upgrade_modules apply apply_items patch_minor list_updates is_major_or_unstable_bump
    version_major beq has_prefix cut
upgrade_rolled_back = refl
