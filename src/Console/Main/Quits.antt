-- ===== src/Console/Main/Quits.antt =====
-- That the interactive mode of bin/console.rs ends at a line `quit`.
use ever_node_tools.Prelude.{
  ℕ, zero, suc, String, str_eq, ◌≡◌, refl, inl, inr, Bool, Bool-cases, true, false, List, [], ◌∷◌,
  ◌++◌, ◌<◌, length, arith, if◌then◌else◌,
}
use ever_node_tools.Outcome.{Outcome, ok, err, panic}
use ever_node_tools.Io.{Io, pure, ◌>>=◌, ◌>>◌}
use ever_node_tools.Rust.Str.{trim_end}
use ever_node_tools.Console.Outside.{Api, World, Event, read_line}
use ever_node_tools.Console.Receive.{Reply}
use ever_node_tools.Console.Bid.{Config}
use ever_node_tools.Console.Main.{Splitter, command, show, line_done, interactive}
use ever_node_tools.Console.States.{States}

-- The loop has ended: by its `break`, or by a panic.
abbrev pub Quits : Outcome Bool → Type 0
Quits (ok true) = Unit
Quits (ok false) = ⊥
Quits (err e) = ⊥
Quits (panic e) = Unit

module _ (api : Api) (world : World api.Answer) (states : States api.Cell) (config : Config api.F32)
    (split : Splitter) where
  -- the rest of the loop behind a line
  abbrev after_line : Io Event Bool → Bool → Io Event Bool
  after_line rest quit = if quit then pure true else rest

  show-Quits :
      (result : Outcome Reply) (rest : Io Event Bool) (g : List Event)
      → ((g' : List Event) → Quits (rest g').0)
      → Quits
          (((show api world states config split "" result >> pure false) >>= after_line rest) g).0
  show-Quits (ok reply) rest g fine = fine _
  show-Quits (err e) rest g fine = fine _
  show-Quits (panic e) rest g fine = tt

  line-Quits :
      (cmd : String) (rest : Io Event Bool) (g : List Event)
      → ((g' : List Event) → Quits (rest g').0)
      → Quits ((line_done api world states config split cmd >>= after_line rest) g).0
  unfolding line_done
  line-Quits cmd rest g fine = elim (Bool-cases (str_eq cmd "")) [
    | inl empty ↦ rw empty (fine g)
    | inr full ↦ rw full (elim (Bool-cases (str_eq cmd "quit")) [
      | inl quit ↦ rw quit tt
      | inr other ↦ rw other (
          show-Quits (command api world states config split cmd g).0 rest
            (command api world states config split cmd g).1 fine)
    ])
  ]

  quit-Quits :
      (cmd : String) (rest : Io Event Bool) (g : List Event)
      → cmd ≡ "quit"
      → (line_done api world states config split cmd >>= after_line rest) g ≡ (ok true, g)
  unfolding line_done
  quit-Quits cmd rest g quit = rw quit refl

  -- If the input has a line that is `quit` without the white space at its end, then so many rounds as
  -- there are lines up to it end the interactive mode, whatever the lines before it are and whatever
  -- their commands give: by `quit`, or by the panic of a command.
  pub interactive-Quits :
      (rounds : ℕ) (before : List String) (line : String) (after : List String) (h : List Event)
      → trim_end line ≡ "quit"
      → length before < rounds
      → Quits (interactive api world states config split rounds (before ++ line ∷ after) h).0
  unfolding interactive
  interactive-Quits zero before line after h quit enough = elim enough [ ]
  interactive-Quits (suc rounds) [] line after h quit enough =
      rw
        (quit-Quits (trim_end line) (interactive api world states config split rounds after)
          (read_line ∷ h) quit)
        tt
  interactive-Quits (suc rounds) (first ∷ before) line after h quit enough =
      line-Quits (trim_end first)
        (interactive api world states config split rounds (before ++ line ∷ after)) (read_line ∷ h)
        (λ g. interactive-Quits rounds before line after g quit (omega arith))
