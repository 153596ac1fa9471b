-- ===== src/Repl/Events.antt =====
-- Lines and interrupts in the REPL of kuai/src/main.rs.
use kuai.Prelude.{
  ℕ, ℤ, pos, negsuc, ◌≡◌, refl, ap, Bool, true, false, not, ◌&&◌, ◌||◌, Option, List, [], ◌∷◌,
  String, Bool-cases, inl, inr, if◌then◌else◌,
}
use kuai.Syntax.Token.{Token}
use kuai.Syntax.Balance
use kuai.Syntax.Balance.{check_balanced, is_not_positive}
use kuai.Repl.{
  Event, line, interrupted, eof, Reading, Decision, more, stop, is_empty, ends_with, is_negative,
  new_reading, with_line, read_more, read_event, run_repl, after_input,
}

positive : (depth : ℤ) → is_not_positive depth ≡ false → is_negative depth ≡ false
positive (pos n) h = refl
positive (negsuc n) h = cc

-- An input whose depth is negative counts as balanced.
negative-balanced :
    (ts : List (Option Token))
    → (check_balanced ts).0 ≡ false
    → is_negative (check_balanced ts).1 ≡ false
unfolding check_balanced Balance.depth_loop
negative-balanced [] h = refl
negative-balanced (t ∷ ts) h = positive (Balance.depth_loop (t ∷ ts) (pos 0)) h

no_ending : (s : String) (c : ℕ) → is_empty s ≡ true → ends_with s c ≡ false
no_ending String.[] c h = refl
no_ending (String.◌∷◌ d s) c h = cc

no_endings :
    (s : String)
    → is_empty s ≡ true
    → not (ends_with s b',' || (ends_with s b'.' || ends_with s b'=')) ≡ true
no_endings s h = rw (no_ending s b',' h) (rw (no_ending s b'.' h) (rw (no_ending s b'=' h) refl))

module _ (lexer : String → List (Option Token)) (trim : String → String) where
  -- A line when the buffer is whole with it: the first line at once, later ones by an empty line.
  abbrev pub decision : String → Reading → Decision
  decision l r =
      if r.is_first_line && is_empty (trim l)
      then stop false r.buffer
      else if (check_balanced (lexer (with_line r.buffer l))).0
          && (r.is_first_line || is_empty (trim l))
      then stop false (with_line r.buffer l)
      else more (record { is_first_line = false; buffer = with_line r.buffer l })

  read_more-decision :
      (trimmed : String) (is_first_line : Bool) (buffer : String)
      → read_more lexer trim trimmed is_first_line buffer ≡ (
          if (check_balanced (lexer buffer)).0 && (is_first_line || is_empty trimmed)
          then stop false buffer
          else more (record { is_first_line = false; buffer = buffer }))
  unfolding read_more
  read_more-decision trimmed is_first_line buffer =
      elim (Bool-cases (check_balanced (lexer buffer)).0) [
        | inr e ↦ rw e (rw (negative-balanced (lexer buffer) e) refl)
        | inl e ↦ rw e (elim (Bool-cases (is_empty trimmed)) [
          | inl g ↦ rw (g, no_endings trimmed g) refl
          | inr g ↦ rw g refl
        ])
      ]

  -- A line ends the input with what was typed before if it is the first and blank; else it ends the
  -- input with itself if that has a token and opens no more brackets than it closes, and the line
  -- is the first or blank; else the REPL reads on. The end of the line and the sign of the depth do
  -- not matter otherwise.
  pub read_event-decision :
      (l : String) (r : Reading) → read_event lexer trim (line l) r ≡ decision l r
  unfolding read_event
  read_event-decision l r =
      ap (λ d. if r.is_first_line && is_empty (trim l) then stop false r.buffer else d)
        (read_more-decision (trim l) r.is_first_line (with_line r.buffer l))

  -- Control-C or control-D.
  abbrev pub IsInterrupt : Event → Type 0
  IsInterrupt (line l) = ⊥
  IsInterrupt interrupted = Unit
  IsInterrupt eof = Unit
  IsInterrupt Event.read_error = ⊥

  module _ {C : Type 0} (compile_and_run : String → C → C) where
    interrupt-empty :
        (e : Event) (es : List Event) (c : C)
        → IsInterrupt e
        → run_repl lexer trim compile_and_run (e ∷ es) new_reading c ≡ (c, true)
    unfolding run_repl read_event
    interrupt-empty interrupted es c h = refl
    interrupt-empty eof es c h = refl
    interrupt-empty (line l) es c h = elim h [ ]
    interrupt-empty Event.read_error es c h = elim h [ ]

    cleared :
        (next : C → C × Bool) (c : C) (terminate : Bool)
        → trim "" ≡ ""
        → next c ≡ (c, true)
        → after_input lexer trim compile_and_run next c terminate "" ≡ (c, true)
    cleared next c true blank h = refl
    cleared next c false blank h = rw blank h

    -- If trimming an empty text gives an empty one, then two interrupts or ends of input one after
    -- the other end the REPL, whatever has been typed before them, and compile nothing.
    pub interrupts_end :
        (e e' : Event) (es : List Event) (r : Reading) (c : C)
        → trim "" ≡ ""
        → IsInterrupt e
        → IsInterrupt e'
        → run_repl lexer trim compile_and_run (e ∷ e' ∷ es) r c ≡ (c, true)
    unfolding run_repl read_event
    interrupts_end interrupted e' es r c blank h h' =
        cleared (run_repl lexer trim compile_and_run (e' ∷ es) new_reading) c (is_empty r.buffer)
          blank (interrupt-empty e' es c h')
    interrupts_end eof e' es r c blank h h' =
        cleared (run_repl lexer trim compile_and_run (e' ∷ es) new_reading) c (is_empty r.buffer)
          blank (interrupt-empty e' es c h')
    interrupts_end (line l) e' es r c blank h h' = elim h [ ]
    interrupts_end Event.read_error e' es r c blank h h' = elim h [ ]
