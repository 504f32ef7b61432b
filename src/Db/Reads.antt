-- ===== src/Db/Reads.antt =====
-- Reading the block store leaves it, and all else, as it was.
use eth_tracker.Prelude.{ℕ, ◌≡◌, refl, sym, ap, ◌∙◌, subst, Option}
use eth_tracker.Exec.{Exec}
use eth_tracker.Exec.Keeps.{Keeps, Keeps-bind, Keeps-lift}
use eth_tracker.Exec.Lens.{Lens, zoom}
use eth_tracker.Db.Bitset.{BitSets}
use eth_tracker.Db.Bolt.{
  Bolt, view, get, number_or_zero, number_of, get_lower_bound, get_upper_bound,
  get_missing_values_bit_set,
}

module _ {S M A : Type 0} {P : S → Type 0} (l : Lens S M) (m : Exec M A) where
  -- A call on a part that leaves the part as it was keeps everything of the whole.
  zoom-Keeps : ((x : M) → Keeps (λ y. y ≡ x) m) → Keeps P (zoom l m)
  unfolding zoom
  zoom-Keeps reads = record {
    at = λ s h.
        subst P (sym (ap (λ x. l.put x s) ((reads (l.get s)).at (l.get s) refl) ∙ l.put-get s)) h;
  }

module _ {S B V : Type 0} {P : S → Type 0} (store : Lens S (Option B)) (bolt : Bolt B)
    (bits : BitSets V) where
  pub get_lower_bound-Keeps : Keeps P (zoom store (get_lower_bound bolt))
  unfolding get_lower_bound get view
  get_lower_bound-Keeps =
      zoom-Keeps store (get_lower_bound bolt)
        λ x. Keeps-bind _ _ (record { at = λ s h. h }) (λ v. Keeps-lift (number_or_zero v))

  pub get_upper_bound-Keeps : Keeps P (zoom store (get_upper_bound bolt))
  unfolding get_upper_bound get view
  get_upper_bound-Keeps =
      zoom-Keeps store (get_upper_bound bolt)
        λ x. Keeps-bind _ _ (record { at = λ s h. h }) (λ v. Keeps-lift (number_of v))

  pub get_missing-Keeps :
      (lower upper : ℕ) → Keeps P (zoom store (get_missing_values_bit_set bolt bits lower upper))
  unfolding get_missing_values_bit_set view
  get_missing-Keeps lower upper =
      zoom-Keeps store (get_missing_values_bit_set bolt bits lower upper)
        (λ x. record { at = λ s h. h })
