-- ===== src/Cdc/Store/Fallback.antt =====
-- What follows the tries of Write: the fallback file, and the error.
use etre.Base.{◌≡◌, refl, ◌∙◌, Option, none, some, str_eq, Bool-cases, inl, inr}
use etre.Etre.{CdcEvent}
use etre.Cdc.Store.Driver.{CdcDriver, CdcLaws}
use etre.Cdc.Store.{CdcStore, closed, written, opened, marshalled, fall_back}

module _ (D : CdcDriver) (laws : CdcLaws D) where
  open D use {World, Error}
  open laws use {events, tries}

  -- The fallback file changes neither the collection nor the tries, and an error is returned.
  abbrev pub Failed : World → World × Option Error → Type 0
  Failed w (w', none) = ⊥
  Failed w (w', some err) = (events w' ≡ events w) × (tries w' ≡ tries w)

  closed-Failed :
      (werr : Error) (w w' : World) (r : World × Option Error)
      → events r.0 ≡ events w
      → tries r.0 ≡ tries w
      → Failed w (closed D (some werr) r)
  unfolding closed
  closed-Failed werr w w' (u, none) h k = (h, k)
  closed-Failed werr w w' (u, some ferr) h k = (h, k)

  written-Failed :
      (werr : Error) (w : World) (r : World × Option Error)
      → events r.0 ≡ events w
      → tries r.0 ≡ tries w
      → Failed w (written D (some werr) r)
  unfolding written
  written-Failed werr w (u, none) h k =
      closed-Failed werr w u (D.close_file u) (laws.events-close u ∙ h) (laws.tries-close u ∙ k)
  written-Failed werr w (u, some ferr) h k = (h, k)

  opened-Failed :
      (bytes : D.Bytes) (werr : Error) (w : World) (r : World × Option Error)
      → events r.0 ≡ events w
      → tries r.0 ≡ tries w
      → Failed w (opened D bytes (some werr) r)
  unfolding opened
  opened-Failed bytes werr w (u, none) h k =
      written-Failed werr w (D.write_file bytes u) (laws.events-write bytes u ∙ h)
        (laws.tries-write bytes u ∙ k)
  opened-Failed bytes werr w (u, some ferr) h k = (h, k)

  pub fall_back-Failed :
      (s : CdcStore D) (e : CdcEvent) (werr : Error) (w : World)
      → Failed w (fall_back D s e (some werr) w)
  unfolding fall_back marshalled
  fall_back-Failed s e werr w = elim (Bool-cases (str_eq s.fallback_file "")) [
    | inl no_file ↦ rw no_file (refl, refl)
    | inr file ↦ rw file (at (D.marshal e))
  ]
    where
      at : (b : Option D.Bytes) → Failed w (marshalled D s.fallback_file (some werr) w b)
      at none = (refl, refl)
      at (some bytes) =
          opened-Failed bytes werr w (D.open_append s.fallback_file w)
            (laws.events-open s.fallback_file w) (laws.tries-open s.fallback_file w)
