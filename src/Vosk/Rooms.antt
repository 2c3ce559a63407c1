-- ===== src/Vosk/Rooms.antt =====
-- The recognizers of all rooms and the models of the process, whatever the rooms do in whatever
-- order (internal/vosk/recognizer.go, internal/vosk/model.go).
use go_live_transcription.Prelude.{
  ℕ, ◌+◌, ◌-◌, String, ◌≡◌, refl, Option, none, some, List, [], ◌∷◌, arith, ltb, ◌≤◌, subst,
}
use go_live_transcription.GoMap.{GoMap, lookup, insert, has}
use go_live_transcription.GoMap.Laws.{Distinct}
use go_live_transcription.Vosk.Models.{ModelManager, ModelDirectory, new_model_manager}
use go_live_transcription.Vosk.Manager.{
  TranscriberManager, Managed, get_or_create, remove, close_all, set_language,
  new_transcriber_manager,
}
use go_live_transcription.Vosk.References.{refs, Sound}
use go_live_transcription.Vosk.Balance.{
  Balanced, held, get_or_create-Balanced, remove-Balanced, close_all-Balanced,
  set_language-Balanced,
}

-- The rooms by their tokens, and the models.
pub record Process : Type 0 where
  pub rooms : GoMap TranscriberManager
  pub models : ModelManager

-- What may be asked of a room's manager: a recognizer for a session, its removal (which nothing in
-- the program asks for), another language, the end.
pub data Call : Type 0 where
  hears : (String → ModelDirectory) → Option ℕ → String → Call
  loses : String → Call
  switches : (String → ModelDirectory) → String → Call
  ends : Call

abbrev act : Call → Managed → Managed
act (hears at made sid) w = (get_or_create at made sid w).0
act (loses sid) w = remove sid w
act (switches at lang) w = (set_language at lang w).0
act ends w = close_all w

abbrev act_in : Option TranscriberManager → String → Call → Process → Process
act_in none room call p = p
act_in (some tm) room call p =
    let w = act call (tm, p.models) in record { rooms = insert room w.0 p.rooms; models = w.1 }

-- A step of the process: a room that is set up, or a call of one that is.
pub data Step : Type 0 where
  opens : String → String → ℕ → Step
  calls : String → Call → Step

abbrev open_in : Option TranscriberManager → String → String → ℕ → Process → Process
open_in (some tm) room lang rate p = p
open_in none room lang rate p = record p {
  rooms = insert room (new_transcriber_manager lang rate) p.rooms;
}

abbrev pub step : Step → Process → Process
step (opens room lang rate) p = open_in (lookup room p.rooms) room lang rate p
step (calls room call) p = act_in (lookup room p.rooms) room call p

abbrev pub run : List Step → Process → Process
run [] p = p
run (s ∷ ss) p = run ss (step s p)

abbrev pub initial : Process
initial = record { rooms = []; models = new_model_manager }

-- The recognizers for a language in all rooms.
abbrev pub total : String → GoMap TranscriberManager → ℕ
total l [] = 0
total l ((k, tm) ∷ rooms) = held l tm + total l rooms

abbrev held_by : String → Option TranscriberManager → ℕ
held_by l none = 0
held_by l (some tm) = held l tm

total-insert :
    (l room : String) (tm : TranscriberManager) (rooms : GoMap TranscriberManager)
    → total l (insert room tm rooms) + held_by l (lookup room rooms) ≡ total l rooms + held l tm
unfolding insert lookup
total-insert l room tm [] = omega arith
total-insert l room tm ((k, v) ∷ rooms) = ground (arith, total-insert l room tm rooms)

abbrev EachDistinct : GoMap TranscriberManager → Type 0
EachDistinct [] = Unit {0}
EachDistinct ((k, tm) ∷ rooms) = Distinct tm.recognizers × EachDistinct rooms

EachDistinct-insert :
    (room : String) (tm : TranscriberManager) (rooms : GoMap TranscriberManager)
    → Distinct tm.recognizers
    → EachDistinct rooms
    → EachDistinct (insert room tm rooms)
unfolding insert
EachDistinct-insert room tm [] d e = (d, tt)
EachDistinct-insert room tm ((k, v) ∷ rooms) d e =
    ground (arith, d, e, EachDistinct-insert room tm rooms d e.1)

abbrev DistinctIn : Option TranscriberManager → Type 0
DistinctIn none = Unit {0}
DistinctIn (some tm) = Distinct tm.recognizers

EachDistinct-lookup :
    (room : String) (rooms : GoMap TranscriberManager)
    → EachDistinct rooms
    → DistinctIn (lookup room rooms)
unfolding lookup
EachDistinct-lookup room [] e = tt
EachDistinct-lookup room ((k, v) ∷ rooms) e = ground (arith, e, EachDistinct-lookup room rooms e.1)

-- A language's model is loaded with as many references as recognizers for it exist, at least one.
pub record Inv (l : String) (p : Process) : Type 0 where
  pub sound : Sound l p.models
  pub counted : refs l p.models ≡ total l p.rooms
  pub distinct : EachDistinct p.rooms

act-Balanced :
    (others : ℕ) (l : String) (call : Call) (w : Managed)
    → Balanced others l w
    → Balanced others l (act call w)
act-Balanced others l (hears at made sid) w b = get_or_create-Balanced others l at made sid w b
act-Balanced others l (loses sid) w b = remove-Balanced others l sid w b
act-Balanced others l (switches at lang) w b = set_language-Balanced others l at lang w b
act-Balanced others l ends w b = close_all-Balanced others l w b

held-total :
    (l room : String) (rooms : GoMap TranscriberManager)
    → held_by l (lookup room rooms) ≤ total l rooms
unfolding lookup
held-total l room [] = omega arith
held-total l room ((k, tm) ∷ rooms) = ground (arith, held-total l room rooms)

act_in-Inv :
    (o : Option TranscriberManager) (l room : String) (call : Call) (p : Process)
    → lookup room p.rooms ≡ o
    → Inv l p
    → Inv l (act_in o room call p)
act_in-Inv none l room call p e v = v
act_in-Inv (some tm) l room call p e v =
    let others = total l p.rooms - held l tm in
    let w = act call (tm, p.models) in
    let known = held-total l room p.rooms in
    let before : Balanced others l (tm, p.models) = record {
      sound = v.sound;
      counted = ground (arith, v, e, known);
      distinct = subst DistinctIn e (EachDistinct-lookup room p.rooms v.distinct);
    } in
    let after = act-Balanced others l call (tm, p.models) before in
    record {
      sound = after.sound;
      counted = ground (arith, v, e, known, after.counted, total-insert l room w.0 p.rooms);
      distinct = EachDistinct-insert room w.0 p.rooms after.distinct v.distinct;
    }

open_in-Inv :
    (o : Option TranscriberManager) (l room lang : String) (rate : ℕ) (p : Process)
    → lookup room p.rooms ≡ o
    → Inv l p
    → Inv l (open_in o room lang rate p)
unfolding new_transcriber_manager
open_in-Inv (some tm) l room lang rate p e v = v
open_in-Inv none l room lang rate p e v =
    let tm = new_transcriber_manager lang rate in
    record {
      sound = v.sound;
      counted = ground (arith, v, e, total-insert l room tm p.rooms);
      distinct = EachDistinct-insert room tm p.rooms tt v.distinct;
    }

step-Inv : (s : Step) (l : String) (p : Process) → Inv l p → Inv l (step s p)
step-Inv (opens room lang rate) l p v = open_in-Inv (lookup room p.rooms) l room lang rate p refl v
step-Inv (calls room call) l p v = act_in-Inv (lookup room p.rooms) l room call p refl v

run-Inv : (ss : List Step) (l : String) (p : Process) → Inv l p → Inv l (run ss p)
run-Inv [] l p v = v
run-Inv (s ∷ ss) l p v = run-Inv ss l (step s p) (step-Inv s l p v)

initial-Inv : (l : String) → Inv l initial
unfolding new_model_manager lookup
initial-Inv l = record { sound = refl; counted = refl; distinct = tt }

-- In a process that starts without rooms, whatever the rooms do, in whatever order, and whatever
-- fails: the model of a language has as many references as there are recognizers for that language in
-- all rooms, and it is loaded exactly while there is one.
pub run-counts :
    (ss : List Step) (l : String)
    → let p = run ss initial in
      (refs l p.models ≡ total l p.rooms) × (has l p.models.models ≡ ltb 0 (total l p.rooms))
unfolding has
run-counts ss l = let v = run-Inv ss l initial (initial-Inv l) in (v.counted, ground (arith, v))
