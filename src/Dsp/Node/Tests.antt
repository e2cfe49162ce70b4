-- ===== src/Dsp/Node/Tests.antt =====
-- A run of a gain node, and its theorem at a concrete run. A number stands for a float: a gain of
-- `db` multiplies by `db + 1`.
use blockcat.Prelude.{ℕ, ◌+◌, ◌*◌, ◌≡◌, refl, some, List, [], ◌∷◌, true}
use blockcat.Dsp.Node.{Floats, GainNode, new, db_to_linear, scale}
use blockcat.Dsp.Node.Models.{latest}
use blockcat.Dsp.Node.Session.{
  Action, sends, plays, pushed, played, run, settle, settles, gain_node_lifetime,
}

abbrev numbers : Floats ℕ
numbers = record {
  multiply = λ a b. a * b;
  divide = λ a b. a;
  powf = λ a b. b + 1;
  ten = 10;
  twenty = 20;
}

abbrev script : List (Action ℕ)
script = plays (1 ∷ 2 ∷ []) (0 ∷ 0 ∷ []) ∷ sends 4 ∷ sends 9 ∷ plays (1 ∷ 2 ∷ []) (0 ∷ 0 ∷ []) ∷ []

settles-script :
    (settles numbers (record { gain_db = 0; pending = [] }) script).0
    ≡ played (1 ∷ 2 ∷ []) ∷ pushed true ∷ pushed true ∷ played (10 ∷ 20 ∷ []) ∷ []
unfolding settles settle latest scale db_to_linear
settles-script = refl

gain_node_lifetime_example :
    (node : GainNode ℕ) × (node' : GainNode ℕ) × (new numbers 0 ≡ some node)
    × (run numbers node script
        ≡ some ((settles numbers (record { gain_db = 0; pending = [] }) script).0, node'))
    × (node'.gain_db ≡ (settles numbers (record { gain_db = 0; pending = [] }) script).1.gain_db)
    × (node'.gain_lin
        ≡ db_to_linear numbers
            (settles numbers (record { gain_db = 0; pending = [] }) script).1.gain_db)
gain_node_lifetime_example = gain_node_lifetime numbers 0 script
