-- ===== src/Worker/Lifecycle/Phases.antt =====
-- The phases of a worker process, as steps that each call takes from one to the next.
use go_skeleton.Base.{
  String, ◌≡◌, ◌↔◌, ◌⊎◌, inl, inr, refl, Bool, true, false, Option, none, some, List, [], ◌∷◌,
}
use go_skeleton.Worker.Lifecycle.{
  Call, start, stop, shutdown, listen, serve, on_ready, context_done, shutdown_probes, RunError,
  run, start_failed,
}

-- `consuming` takes tasks, `bound` has asked for the port of the probes too and `serving` answers them,
-- `announced` has said that it is ready, `ending` has been told to end, `stopping` takes no more tasks,
-- and `halted` runs none.
pub data Phase : Type 0 where
  idle consuming bound serving announced ending stopping halted : Phase

-- Which call may be made in which phase, of a process with the port of the probes or without it.
pub data Step (probes : Bool) : Phase → Call → Phase → Type 0 where
  starts : Step probes idle start consuming
  listens : probes ≡ true → Step probes consuming listen bound
  serves : Step probes bound serve serving
  gives_up : Step probes bound stop stopping
  announces : probes ≡ false → Step probes consuming on_ready announced
  announces_probes : Step probes serving on_ready announced
  ends : Step probes announced context_done ending
  ends_silent : probes ≡ false → Step probes consuming context_done ending
  ends_silent_probes : Step probes serving context_done ending
  stops : Step probes ending stop stopping
  shuts_down : Step probes stopping shutdown halted
  shuts_down_probes : probes ≡ true → Step probes halted shutdown_probes halted

pub data Course (probes : Bool) : Phase → List Call → Phase → Type 0 where
  here : {p : Phase} → Course probes p [] p
  next :
      {p q r : Phase} {c : Call} {cs : List Call}
      → Step probes p c q
      → Course probes q cs r
      → Course probes p (c ∷ cs) r

-- Whether `onReady` is called.
abbrev pub says_ready : List Call → Bool
says_ready [] = false
says_ready (on_ready ∷ cs) = true
says_ready (start ∷ cs) = says_ready cs
says_ready (stop ∷ cs) = says_ready cs
says_ready (shutdown ∷ cs) = says_ready cs
says_ready (listen ∷ cs) = says_ready cs
says_ready (serve ∷ cs) = says_ready cs
says_ready (context_done ∷ cs) = says_ready cs
says_ready (shutdown_probes ∷ cs) = says_ready cs

-- How Run ends: with an error of Start nothing has run; else asynq has been stopped and shut down, in
-- this order, and the process was announced as ready if that was asked for and there is no error.
pub record Ends (probes ready : Bool) (calls : List Call) (e : Option RunError) : Type 0 where
  pub last : Phase
  pub path : Course probes idle calls last
  pub halts :
      (last ≡ halted)
      ⊎ ((calls ≡ start ∷ []) × ((message : String) × (e ≡ some (start_failed message))))
  pub announced_iff : (says_ready calls ≡ true) ↔ (ready ≡ true) × (e ≡ none)

drain : Course false ending (stop ∷ shutdown ∷ []) halted
drain = next stops (next shuts_down here)

drain_probes : Course true ending (stop ∷ shutdown ∷ shutdown_probes ∷ []) halted
drain_probes = next stops (next shuts_down (next (shuts_down_probes refl) here))

-- Whatever the outcome of Start and of binding the port of the probes, Run makes its calls in the order of
-- the phases. Where Start fails nothing else happens. Otherwise asynq is stopped and then shut down, also
-- if the port cannot be bound; and the process is announced as ready, where that is asked for, exactly
-- if Run gives no error, after Start and after the port is bound and served.
pub run-Ends :
    (probes ready : Bool) (start_failure listen_failure : Option String)
    → Ends probes ready
        (run probes ready start_failure listen_failure).0
        (run probes ready start_failure listen_failure).1
unfolding run
run-Ends false ready (some message) l = record {
  last = consuming;
  path = next starts here;
  halts = inr (refl, (message, refl));
  announced_iff = (λ h. cc, λ h. cc);
}
run-Ends true ready (some message) l = record {
  last = consuming;
  path = next starts here;
  halts = inr (refl, (message, refl));
  announced_iff = (λ h. cc, λ h. cc);
}
run-Ends false true none l = record {
  last = halted;
  path = next starts (next (announces refl) (next ends drain));
  halts = inl refl;
  announced_iff = (λ h. (refl, refl), λ h. refl);
}
run-Ends false false none l = record {
  last = halted;
  path = next starts (next (ends_silent refl) drain);
  halts = inl refl;
  announced_iff = (λ h. cc, λ h. cc);
}
run-Ends true true none none = record {
  last = halted;
  path =
      next starts
        (next (listens refl) (next serves (next announces_probes (next ends drain_probes))));
  halts = inl refl;
  announced_iff = (λ h. (refl, refl), λ h. refl);
}
run-Ends true false none none = record {
  last = halted;
  path = next starts (next (listens refl) (next serves (next ends_silent_probes drain_probes)));
  halts = inl refl;
  announced_iff = (λ h. cc, λ h. cc);
}
run-Ends true ready none (some message) = record {
  last = halted;
  path = next starts (next (listens refl) (next gives_up (next shuts_down here)));
  halts = inl refl;
  announced_iff = (λ h. cc, λ h. cc);
}
