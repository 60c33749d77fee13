-- ===== src/Cdc/Store/Driver.antt =====
-- What cdc/store.go calls: the collection of the MongoDB driver, the context, time, JSON and files.
use etre.Base.{ℕ, suc, String, ◌≡◌, Option, none, some, List, [], ◌∷◌, ◌++◌, ◌⊎◌}
use etre.Etre.{CdcEvent}

pub record CdcDriver : Type 1 where
  pub World : Type 0
  pub Error : Type 0
  pub Bytes : Type 0
  pub insert_one : CdcEvent → World → World × Option Error
  -- ctx.Err()
  pub context_error : World → Option Error
  -- time.Sleep of nanoseconds
  pub sleep : ℕ → World → World
  -- json.Marshal: none for an error.
  pub marshal : CdcEvent → Option Bytes
  -- os.OpenFile to append, Write and Close of that file.
  pub open_append : String → World → World × Option Error
  pub write_file : Bytes → World → World × Option Error
  pub close_file : World → World × Option Error
  -- The errors that fmt.Errorf makes.
  pub marshal_failed : Error
  pub open_failed : Error → Error
  pub write_failed : Error → Error
  pub close_failed : Error → Error

module _ (D : CdcDriver) where
  open D use {World, Error, Bytes, insert_one, sleep, open_append, write_file, close_file}

  -- The events in the collection change by InsertOne alone, which adds the event if it returns no
  -- error; if it returns one, such as a timeout or an error of the write concern, the event may have
  -- been added or not. `tries` counts its calls.
  pub record CdcLaws : Type 0 where
    pub events : World → List CdcEvent
    pub tries : World → ℕ
    pub events-insert_one :
        (e : CdcEvent) (w : World)
        → (insert_one e w).1 ≡ none
        → events (insert_one e w).0 ≡ events w ++ e ∷ []
    pub events-insert_failed :
        (e : CdcEvent) (w : World) (err : Error)
        → (insert_one e w).1 ≡ some err
        → (events (insert_one e w).0 ≡ events w) ⊎ (events (insert_one e w).0 ≡ events w ++ e ∷ [])
    pub events-sleep : (n : ℕ) (w : World) → events (sleep n w) ≡ events w
    pub events-open : (f : String) (w : World) → events (open_append f w).0 ≡ events w
    pub events-write : (b : Bytes) (w : World) → events (write_file b w).0 ≡ events w
    pub events-close : (w : World) → events (close_file w).0 ≡ events w
    pub tries-insert_one : (e : CdcEvent) (w : World) → tries (insert_one e w).0 ≡ suc (tries w)
    pub tries-sleep : (n : ℕ) (w : World) → tries (sleep n w) ≡ tries w
    pub tries-open : (f : String) (w : World) → tries (open_append f w).0 ≡ tries w
    pub tries-write : (b : Bytes) (w : World) → tries (write_file b w).0 ≡ tries w
    pub tries-close : (w : World) → tries (close_file w).0 ≡ tries w
