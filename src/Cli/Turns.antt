-- ===== src/Cli/Turns.antt =====
-- The server and the REPL of kuai/src/main.rs on the context that they share.
use kuai.Prelude.{
  append_assoc, append-nil, ◌∙◌, ◌≡◌, refl, sym, ap, subst, ◌⊎◌, inl, inr, Bool, true, false, List,
  [], ◌∷◌, ◌++◌, String, push,
}
use kuai.Outcome.{Outcome, ok, panicked, out_of_fuel, bind}
use kuai.Driver.Diagnostic.{CompileResult}
use kuai.Cli.{
  Summary, Rendered, Report, compiled, unread, connection_failed, free, text, broken, refused, Turn,
  connection, input, Program, compile_and_run, ran, with_lock, server_panics, repl_panics, turn,
  turns, started,
}
use kuai.Cli.Reports.{Compiles, reported, reported-push, Replays, compile_and_run_ends}
use kuai.Cli.Poisoned.{dead, IsDead, turns-dead}

-- The sources among the turns; without a server nothing comes from connections.
abbrev pub sources : Bool → List Turn → List String
sources listen [] = []
sources listen (input source ∷ ts) = source ∷ sources listen ts
sources true (connection (text source) ∷ ts) = source ∷ sources true ts
sources false (connection (text source) ∷ ts) = sources false ts
sources listen (connection broken ∷ ts) = sources listen ts
sources listen (connection refused ∷ ts) = sources listen ts

reported-one :
    (report : Report) {labels : List Rendered} {line : Summary}
    → report ≡ compiled labels line
    → reported (report ∷ []) ≡ report ∷ []
reported-one (compiled labels line) e = refl
reported-one unread e = cc e
reported-one connection_failed e = cc e

module _ {A C : Type 0} (compile : String → C → Outcome (CompileResult A × C)) where
  -- Both threads wait for their next turn.
  abbrev pub alive : Bool → C → List Report → Program C
  alive listen c printed = record {
    lock = free c;
    server_runs = listen;
    repl_runs = true;
    printed = printed;
  }

  -- All sources have been compiled, and what is reported behind earlier reports is theirs, in their
  -- order; or one has panicked, and those before it have.
  abbrev pub IsServed : Bool → List String → C → List Report → Outcome (Program C) → Type 0
  IsServed listen ss c earlier r =
      ((c' : C) × (printed : List Report) × (rs : List Report) × (r ≡ ok (alive listen c' printed))
        × Replays compile ss c c' rs
        × (reported printed ≡ earlier ++ rs))
      ⊎ ((before : List String) × (source : String) × (others : List String) × (c' : C) × (rs : List
            Report)
          × (ss ≡ before ++ source ∷ others)
          × Replays compile before c c' rs
          × (compile_and_run compile source c' ≡ panicked)
          × IsDead compile (earlier ++ rs) r)

  -- One source has been compiled before.
  one_more :
      (listen : Bool) (source : String) (ss : List String) (c after : C) (earlier : List Report)
      (report : Report) (r : Outcome (Program C))
      → Compiles compile source c report after
      → IsServed listen ss after (earlier ++ report ∷ []) r
      → IsServed listen (source ∷ ss) c earlier r
  one_more listen source ss c after earlier report r made
        (inl (c', printed, rs, same, replays, all)) =
      inl (
        c',
        printed,
        report ∷ rs,
        same,
        (report, after, rs, made, refl, replays),
        all ∙ append_assoc earlier (report ∷ []) rs,
      )
  one_more listen source ss c after earlier report r made
        (inr (
          before,
          bad,
          others,
          c',
          rs,
          parts,
          replays,
          panics,
          (server, repl, printed, same, all),
        )) =
      inr (
        source ∷ before,
        bad,
        others,
        c',
        report ∷ rs,
        ap (◌∷◌ source) parts,
        (report, after, rs, made, refl, replays),
        panics,
        (server, repl, printed, same, all ∙ append_assoc earlier (report ∷ []) rs),
      )

  module _ (fuel : (source : String) (c : C) → ¬ (compile source c ≡ out_of_fuel)) where
    -- A source that the locked context is used for, whatever thread it comes from.
    locked :
        (listen : Bool) (source : String) (ss : List String) (c : C) (printed : List Report)
        (panics : Program C → Program C) (rest : Program C → Outcome (Program C))
        → ((after : C) (more : List Report)
            → IsServed listen ss after (reported more) (rest (alive listen after more)))
        → IsDead compile (reported printed) (rest (panics (dead compile listen true printed)))
        → IsServed listen
            (source ∷ ss)
            c
            (reported printed)
            (bind (with_lock compile (free c) source panics (alive listen c printed)) rest)
    locked listen source ss c printed panics rest goes_on ends =
        let Goal : Outcome (Report × C) → Type 0 = λ x.
          IsServed listen (source ∷ ss) c (reported printed)
            (bind (ran compile x panics (alive listen c printed)) rest) in
        elim (compile_and_run_ends compile source c (fuel source c)) [
          | inl (report, after, made) ↦
              let (result, line, compiles, deserved, shape, e) = made in
              let more = push printed report in
              subst Goal (sym e) (
                one_more listen source ss c after (reported printed) report
                  (rest (alive listen after more)) made
                  (subst (λ rs. IsServed listen ss after rs (rest (alive listen after more)))
                    (reported-push printed report
                      ∙ ap (λ rs. reported printed ++ rs) (reported-one report shape))
                    (goes_on after more)))
          | inr e ↦
              let (server, repl, printed', same, all) = ends in
              subst Goal (sym e) (
                inr (
                  [],
                  source,
                  ss,
                  c,
                  [],
                  refl,
                  (refl, refl),
                  e,
                  (server, repl, printed', same, all ∙ sym (append-nil (reported printed))),
                ))
        ]

    -- A turn that compiles nothing.
    unlocked :
        (listen : Bool) (ss : List String) (c : C) (printed : List Report) (report : Report)
        (r : Outcome (Program C))
        → reported (report ∷ []) ≡ []
        → IsServed listen ss c (reported (push printed report)) r
        → IsServed listen ss c (reported printed) r
    unlocked listen ss c printed report r none_more h =
        subst (λ rs. IsServed listen ss c rs r)
          (reported-push printed report
            ∙ ap (λ rs. reported printed ++ rs) none_more
            ∙ append-nil (reported printed))
          h

    turns-IsServed_on :
        (ts : List Turn) (listen : Bool) (c : C) (printed : List Report)
        → IsServed listen
            (sources listen ts)
            c
            (reported printed)
            (turns compile ts (alive listen c printed))
    unfolding turns turn
    turns-IsServed_on [] listen c printed =
        inl (c, printed, [], refl, (refl, refl), sym (append-nil (reported printed)))
    turns-IsServed_on (input source ∷ ts) listen c printed =
        locked listen source (sources listen ts) c printed (repl_panics compile) (turns compile ts)
          (turns-IsServed_on ts listen) (turns-dead compile ts false false printed)
    turns-IsServed_on (connection (text source) ∷ ts) true c printed =
        locked true source (sources true ts) c printed (server_panics compile) (turns compile ts)
          (turns-IsServed_on ts true) (turns-dead compile ts false true printed)
    turns-IsServed_on (connection (text source) ∷ ts) false c printed =
        turns-IsServed_on ts false c printed
    turns-IsServed_on (connection broken ∷ ts) true c printed =
        unlocked true _ c printed unread _ refl (turns-IsServed_on ts true c (push printed unread))
    turns-IsServed_on (connection broken ∷ ts) false c printed =
        turns-IsServed_on ts false c printed
    turns-IsServed_on (connection refused ∷ ts) true c printed =
        unlocked true _ c printed connection_failed _ refl
          (turns-IsServed_on ts true c (push printed connection_failed))
    turns-IsServed_on (connection refused ∷ ts) false c printed =
        turns-IsServed_on ts false c printed

    -- However the turns of the server and the REPL interleave, where the compiler does not run out
    -- of fuel: all sources are compiled one after another in the order of their turns, each on the
    -- context that the one before has left, what is reported of compilations is, in this order, the
    -- diagnostics of each and its last line, and both threads wait for more; or one of them panics,
    -- then only those before it have been compiled and reported, and the lock stays poisoned, so
    -- that none behind it is compiled, from whichever thread it comes.
    pub turns-IsServed :
        (ts : List Turn) (listen : Bool) (c : C)
        → IsServed listen (sources listen ts) c [] (turns compile ts (started compile listen c))
    turns-IsServed ts listen c = turns-IsServed_on ts listen c []
