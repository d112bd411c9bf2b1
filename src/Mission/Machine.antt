-- ===== src/Mission/Machine.antt =====
-- What the finalize protocol runs on: the database, the events files, the output files and the
-- process, which may die before any of its durable steps. A file of data_dir is known by the
-- SHA-256 of its content; paths are relative to data_dir. An I/O error of a step is a death there.
use letts.EventFile.Json.{Value}
use letts.EventFile.Writer.{Event, EventFile, Write}
use letts.Mission.Outcome.{Format}
use letts.Storage.Rows.{Db, Error, Result}
use letts.Prelude.{
  true, some, str_eq, ◌==◌, zero, [], false, none, if◌then◌else◌, ◌∷◌, Option, suc, Bool, String, ℕ,
  List,
}

pub record World : Type 0 where
  pub db : Db
  pub events : ℕ → Option EventFile
  pub files : String → Option String
  pub critical : List String  -- the trips of criticalerr

-- `left` is the number of durable steps before the process dies, and `torn` is what becomes of a
-- write in which it dies
pub record Machine : Type 0 where
  pub left : ℕ
  pub torn : Write
  pub world : World

pub data Failure : Type 0 where
  storage : Error → Failure
  no_events_file terminal_event_conflict append_failed fail_reason_required : Failure

pub data Run {ℓ} (A : Type ℓ) : Type ℓ where
  returned : A → Machine → Run A
  failed : Failure → Machine → Run A
  crashed : World → Run A

abbrev pub Prog : Type 0 → Type 0
Prog A = Machine → Run A

abbrev pub and_then : {A B : Type 0} → Run A → (A → Prog B) → Run B
and_then (returned a m) f = f a m
and_then (failed e m) f = failed e m
and_then (crashed w) f = crashed w

infixl 5 ◌>>=◌ ◌>>◌
abbrev pub ◌>>=◌ : {A B : Type 0} → Prog A → (A → Prog B) → Prog B
◌>>=◌ p f m = and_then (p m) f

abbrev pub ◌>>◌ : {A B : Type 0} → Prog A → Prog B → Prog B
p >> q = p >>= λ _. q

abbrev pub return : {A : Type 0} → A → Prog A
return a m = returned a m

abbrev pub fail : {A : Type 0} → Failure → Prog A
fail e m = failed e m

abbrev pub get : {A : Type 0} → (World → A) → Prog A
get f m = returned (f m.world) m

abbrev pub put : World → Prog (Unit {0})
put w m = returned tt (record m { world = w })

-- the world that a run leaves behind
abbrev pub left_behind {ℓ} : {A : Type ℓ} → Run A → World
left_behind (returned a m) = m.world
left_behind (failed e m) = m.world
left_behind (crashed w) = w

abbrev spend : {A : Type 0} → ℕ → (ℕ → Run A) → Run A → Run A
spend zero go dead = dead
spend (suc n) go dead = go n

-- one durable step; `dead` is what it leaves if the process dies in it
abbrev pub durable : {A : Type 0} → (World → World) → (World → A × World) → Prog A
durable dead f m =
    spend m.left (λ n. let (a, w) = f m.world in returned a (record m { left = n; world = w }))
      (crashed (dead m.world))

abbrev committed : {A : Type 0} → World → Result (A × Db) → Result A × World
committed w (Result.ok (a, db)) = (Result.ok a, record w { db = db })
committed w (Result.err e) = (Result.err e, w)

-- a writer transaction, of which nothing stays when it fails
abbrev pub attempt : {A : Type 0} → (Db → Result (A × Db)) → Prog (Result A)
attempt tx = durable (λ w. w) (λ w. committed w (tx w.db))

abbrev lift : {A : Type 0} → Result A → Prog A
lift (Result.ok a) = return a
lift (Result.err e) = fail (storage e)

abbrev pub transaction : {A : Type 0} → (Db → Result (A × Db)) → Prog A
transaction tx = attempt tx >>= lift

abbrev pub set_file : String → Option String → World → World
set_file path content w = record w { files = λ p. if str_eq p path then content else w.files p }

abbrev pub set_events : ℕ → EventFile → World → World
set_events id f w = record w { events = λ j. if j == id then some f else w.events j }

-- os.Remove, whose error is ignored
unfoldable pub remove_file : String → Prog (Unit {0})
remove_file path = durable (λ w. w) (λ w. (tt, set_file path none w))

unfoldable pub renamed : String → String → Option String → World → Bool × World
renamed src dst none w = (false, w)
renamed src dst (some content) w = (true, set_file dst (some content) (set_file src none w))

-- os.Rename, which fails if there is no such file
unfoldable pub rename_file : String → String → Prog Bool
unfolding renamed
rename_file src dst = durable (λ w. w) (λ w. renamed src dst (w.files src) w)

unfoldable pub remove_files : List String → Prog (Unit {0})
unfolding remove_file
remove_files [] = return tt
remove_files (p ∷ ps) = remove_file p >> remove_files ps

-- what the rest of the host decides: the encoding of an event and of raw JSON, Go's formatting,
-- the text of a failed rename, and a later reading of the clock
pub record Host : Type 0 where
  pub line_size : Event → ℕ
  pub parse : String → Value
  pub format : Format
  pub rename_error : String → String → String
  pub clock : ℕ
