-- ===== src/Govern/Concurrent/System.antt =====
-- A governor with its concurrent calls (govern/governor.go: Admit on many goroutines, Declare), and the
-- interleavings of their steps.
use mitrity_go.Base.{List, [], ◌∷◌, ◌++◌, Bytes}
use mitrity_go.Admission.Client.Construct.{Client}
use mitrity_go.Admission.World.{World}
use mitrity_go.Govern.Governor.{declare}
use mitrity_go.Govern.State.{GovernorOption, new_governor}
use mitrity_go.Govern.Admit.{GovernorEnv, State}
use mitrity_go.Govern.Concurrent.Call.{Call, Point, entered, advance}

-- A goroutine inside Admit.
pub record Goroutine : Type 0 where
  pub call : Call
  pub point : Point

-- What the goroutines share, and where each call stands, those that have returned included.
pub record System (W : Type 0) : Type 0 where
  pub shared : State W
  pub calls : List Goroutine

module _ {W : Type 0} (ge : GovernorEnv W) where
  abbrev pub start : List GovernorOption → Client → (random : Bytes) → World W → System W
  start opts c random w = record {
    shared = record { governor = new_governor opts c random; world = w; lines = [] };
    calls = [];
  }

  -- One step: a call enters Admit, the goroutine between `before` and `after` makes its next step, names
  -- are declared (Declare, Wrap, WrapAll), or the rest of the world moves on.
  pub data Step : System W → System W → Type 0 where
    entering :
        (call : Call) (s : State W) (calls : List Goroutine)
        → Step
            (record { shared = s; calls = calls })
            (record { shared = s; calls = record { call = call; point = entered } ∷ calls })
    moving :
        (before after : List Goroutine) (call : Call) (p : Point) (s : State W)
        → Step
            (record { shared = s; calls = before ++ record { call = call; point = p } ∷ after })
            (record {
              shared = (advance ge call p s).1;
              calls = before ++ record { call = call; point = (advance ge call p s).0 } ∷ after;
            })
    declaring :
        (names : List Bytes) (s : State W) (calls : List Goroutine)
        → Step
            (record { shared = s; calls = calls })
            (record { shared = record s { governor = declare names s.governor }; calls = calls })
    elapsing :
        (o : W) (s : State W) (calls : List Goroutine)
        → Step
            (record { shared = s; calls = calls })
            (record { shared = record s { world = record s.world { outside = o } }; calls = calls })

  pub data Reaches (first : System W) : System W → Type 0 where
    here : Reaches first first
    next :
        {reached last : System W} → Reaches first reached → Step reached last → Reaches first last

-- A property of every goroutine.
abbrev pub Every : (Goroutine → Type 0) → List Goroutine → Type 0
Every P [] = Unit
Every P (g ∷ calls) = P g × Every P calls

module _ (P : Goroutine → Type 0) where
  pub Every-middle :
      (before after : List Goroutine) (g : Goroutine) → Every P (before ++ g ∷ after) → P g
  Every-middle [] after g (h, k) = h
  Every-middle (f ∷ before) after g (h, k) = Every-middle before after g k

  pub Every-map :
      (Q : Goroutine → Type 0) (f : (g : Goroutine) → P g → Q g) (calls : List Goroutine)
      → Every P calls
      → Every Q calls
  Every-map Q f [] h = tt
  Every-map Q f (g ∷ calls) (h, k) = (f g h, Every-map Q f calls k)

  -- All of them again behind a step of the one in the middle.
  pub Every-moved :
      (Q : Goroutine → Type 0) (before after : List Goroutine) (g g' : Goroutine)
      → ((f : Goroutine) → P f → Q f)
      → Q g'
      → Every P (before ++ g ∷ after)
      → Every Q (before ++ g' ∷ after)
  Every-moved Q [] after g g' f q (h, k) = (q, Every-map Q f after k)
  Every-moved Q (b ∷ before) after g g' f q (h, k) = (f b h, Every-moved Q before after g g' f q k)
