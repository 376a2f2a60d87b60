-- ===== src/Service/Server/World/Quiet.antt =====
-- Before the loop there is no child and no task, nor where the loop is not come to.
use sc_helper.Prelude.{
  ℕ, ◌+◌, ◌⊎◌, Bool-cases, inl, inr, refl, ◌≡◌, sym, Bool, List, [], ◌∷◌, Text, none, arith,
}
use mathlib.Core.Path.{subst}
use sc_helper.Prelude.Program.{Outcome, done, failed, panicked, stuck}
use sc_helper.Service.State.{Daemon}
use sc_helper.Service.Server.Task.{Task, crashes}
use sc_helper.Service.Server.World.{
  Phase, launching, accepting, ending, exited, broken, aborted, Turns, here, there, entering,
  surviving, quitting,
}

-- No child is held, and no client has connected.
abbrev pub IsFresh : Daemon → List Task → ℕ → Type 0
IsFresh d ts n = (d.supervisor.child ≡ none) × (ts ≡ []) × (n ≡ 0)

-- So it is before the loop, and where it is not come to.
unfoldable pub IsQuiet : Phase → Daemon → List Task → ℕ → Type 0
IsQuiet launching d ts n = IsFresh d ts n
IsQuiet broken d ts n = IsFresh d ts n
IsQuiet _ d ts n = Unit

Turns-absurd :
    {l l' : Bool} {d d' : Daemon} {ts ts' : List Task} → Turns l d ts l' d' ts' → ts ≡ [] → ⊥
Turns-absurd (here ms t) e = ground (arith, e)
Turns-absurd (there m t) e = ground (arith, e)

pub turned-IsQuiet :
    (p : Phase) {l l' : Bool} {d d' : Daemon} {ts ts' : List Task} (n : ℕ)
    → Turns l d ts l' d' ts'
    → IsQuiet p d ts n
    → IsQuiet p d' ts' n
unfolding IsQuiet
turned-IsQuiet launching n t (_, e, _) = absurd (Turns-absurd t e)
turned-IsQuiet (accepting path) n t h = tt
turned-IsQuiet (ending m) n t h = tt
turned-IsQuiet exited n t h = tt
turned-IsQuiet aborted n t h = tt
turned-IsQuiet broken n t (_, e, _) = absurd (Turns-absurd t e)

surviving_cases : (ms : List Task) (p : Phase) → (surviving ms p ≡ p) ⊎ (surviving ms p ≡ aborted)
unfolding surviving
surviving_cases [] p = inl refl
surviving_cases (m ∷ ms) p = elim (Bool-cases (crashes m)) [
  | inl e ↦ rw e (inr refl)
  | inr e ↦ rw e (surviving_cases ms p)
]

pub survived-IsQuiet :
    (p : Phase) (d : Daemon) (ts : List Task) (n : ℕ)
    → IsQuiet p d ts n
    → IsQuiet (surviving ts p) d ts n
unfolding IsQuiet
survived-IsQuiet p d ts n h = elim (surviving_cases ts p) [
  | inl e ↦ subst (λ q. IsQuiet q d ts n) (sym e) h
  | inr e ↦ subst (λ q. IsQuiet q d ts n) (sym e) tt
]

pub arrived-IsQuiet :
    (p : Phase) (d : Daemon) (ts ts' : List Task) {n : ℕ} (m : ℕ)
    → n ≡ 1 + m
    → IsQuiet p d ts n
    → IsQuiet p d ts' m
unfolding IsQuiet
arrived-IsQuiet launching d ts ts' m e (_, _, z) = absurd (ground (arith, e, z))
arrived-IsQuiet (accepting path) d ts ts' m e h = tt
arrived-IsQuiet (ending x) d ts ts' m e h = tt
arrived-IsQuiet exited d ts ts' m e h = tt
arrived-IsQuiet aborted d ts ts' m e h = tt
arrived-IsQuiet broken d ts ts' m e (_, _, z) = absurd (ground (arith, e, z))

pub quitting-IsQuiet :
    (x : Outcome (Unit {0})) (d : Daemon) (ts : List Task) (n : ℕ) → IsQuiet (quitting x) d ts n
unfolding IsQuiet quitting
quitting-IsQuiet (done u) d ts n = tt
quitting-IsQuiet (failed e) d ts n = tt
quitting-IsQuiet (panicked e) d ts n = tt
quitting-IsQuiet stuck d ts n = tt

pub entering-IsQuiet :
    (x : Outcome Text) (d : Daemon) (ts : List Task) (n : ℕ)
    → IsFresh d ts n
    → IsQuiet (entering x) d ts n
unfolding IsQuiet entering
entering-IsQuiet (done path) d ts n h = tt
entering-IsQuiet (failed e) d ts n h = h
entering-IsQuiet (panicked e) d ts n h = tt
entering-IsQuiet stuck d ts n h = h
