-- ===== src/Transfer/Receive/Downloads.antt =====
-- What the download loop of crates/core/src/transfer/receive/core.rs reports and remembers.
use worddrop.Base.{
  ℕ, ◌≤◌, ◌≡◌, refl, List, [], ◌∷◌, Option, none, some, Result, ok, err, All, All-append, ◌==◌,
  Bool-cases, inl, inr, arith,
}
use worddrop.Protocol.Wire.{Json}
use worddrop.Transfer.Record.{Hashing, TransferRecord, RecordStore}
use worddrop.Transfer.Progress.{
  ReceiveProgress, connecting, downloading, exporting, finished, error, ReceiveError, GetItem,
  offset, get_done, get_error, Env, World, add64, at_most, Step, report,
}
use worddrop.Transfer.Receive.{then_run, save_record, update_received, download_items}

-- A report of a download is within its total.
abbrev pub IsBounded : ReceiveProgress → Type 0
IsBounded (downloading received total) = received ≤ total
IsBounded connecting = Unit
IsBounded (exporting name) = Unit
IsBounded (finished bytes files) = Unit
IsBounded error = Unit

abbrev pub IsWithin : {Hash : Type 0} → ℕ → Option (TransferRecord Hash) → Type 0
IsWithin total none = Unit
IsWithin total (some r) = r.bytes_received ≤ total

-- No report exceeds its total, and the record does not exceed this one.
abbrev pub InBounds : {Hash : Type 0} → ℕ → World Hash → Type 0
InBounds total w = All IsBounded w.progress × IsWithin total w.resume

at_most-le : (bound n : ℕ) → at_most bound n ≤ bound
at_most-le bound n = ground arith

module _ {Hash E F X : Type 0} (hashing : Hashing Hash) (json : Json E (TransferRecord Hash))
    (store : RecordStore) (env : Env Hash F X) where
  update-InBounds :
      (total received : ℕ) (o : Option (TransferRecord Hash)) (w : World Hash)
      → received ≤ total
      → o ≡ w.resume
      → InBounds total w
      → InBounds total (update_received hashing json store env received o w).1
  unfolding save_record
  update-InBounds total received none w le same h = h
  update-InBounds total received (some r) w le same h =
      elim (Bool-cases (r.bytes_received == received)) [ inl q ↦ rw q h | inr q ↦ rw q (h.0, le) ]

  onward :
      {A : Type 0} (total : ℕ) (r : Result (ReceiveError F X) A × World Hash)
      (next : A → Step Hash F X (Unit {0}))
      → InBounds total r.1
      → ((a : A) (w : World Hash) → InBounds total w → InBounds total (next a w).1)
      → InBounds total (then_run next r).1
  onward total (ok a, w) next h go = go a w h
  onward total (err e, w) next h go = h

  -- However a download ends, no progress report says that more was received than the total, and
  -- neither does the resume record, if that was so before it.
  pub download_items-InBounds :
      (items : List (GetItem X)) (total here : ℕ) (w : World Hash)
      → InBounds total w
      → InBounds total (download_items hashing json store env items total here w).1
  unfolding download_items
  download_items-InBounds [] total here w h = h
  download_items-InBounds (get_done ∷ items) total here w h = h
  download_items-InBounds (get_error x ∷ items) total here w h =
      (All-append IsBounded w.progress (error ∷ []) h.0 (tt, tt), h.1)
  download_items-InBounds (offset n ∷ items) total here w h =
      let received = at_most total (add64 here n) in
      onward total (update_received hashing json store env received w.resume w)
        (λ _ w'.
          download_items hashing json store env items total here
            (report (downloading received total) w'))
        (update-InBounds total received w.resume w (at_most-le total (add64 here n)) refl h)
        λ _ w' g.
          download_items-InBounds items total here (report (downloading received total) w') (
            All-append IsBounded w'.progress (downloading received total ∷ []) g.0
                (at_most-le total (add64 here n), tt),
            g.1,
          )
