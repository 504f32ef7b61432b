-- ===== src/Publisher/Ids.antt =====
-- The message id tells events apart by the transaction and the index.
use Prim.Native.String.{◌++◌ as join}
use eth_tracker.Prelude.{ℕ, ◌≡◌, ◌≢◌, ap, sym, ◌∙◌, ◌↔◌, ◌∷◌, ◌++◌, All, All-map, arith}
use eth_tracker.Prelude.Codes.{
  codes, codes-append, codes_injective, decimal-digits, decimal_injective, split_alike, IsDigit,
}
use eth_tracker.Prelude.Text.{decimal}
use eth_tracker.Event.{Event}
use eth_tracker.Publisher.{message_id}

codes-message_id :
    (e : Event) → codes (message_id e) ≡ codes e.tx_hash ++ (58 ∷ codes (decimal e.index))
codes-message_id e =
    codes-append e.tx_hash (join ":" (decimal e.index))
    ∙ ap (λ cs. codes e.tx_hash ++ cs) (codes-append ":" (decimal e.index))

no_colon : (n : ℕ) → All (λ c. c ≢ 58) (codes (decimal n))
no_colon n = All-map IsDigit _ (codes (decimal n)) (λ c h. omega arith) (decimal-digits n)

-- Two events have the same message id exactly if they have the same transaction hash and the same
-- index.
pub message_id_injective :
    (e e' : Event)
    → (message_id e ≡ message_id e') ↔ ((e.tx_hash ≡ e'.tx_hash) × (e.index ≡ e'.index))
message_id_injective e e' = (
  (λ same.
      let (hashes, digits) =
        split_alike 58 (codes e.tx_hash) (codes e'.tx_hash) (codes (decimal e.index))
          (codes (decimal e'.index)) (no_colon e.index) (no_colon e'.index)
          (sym (codes-message_id e) ∙ ap codes same ∙ codes-message_id e') in
      (codes_injective e.tx_hash e'.tx_hash hashes, decimal_injective e.index e'.index digits)),
  (λ (hash, index) i. join (hash i) (join ":" (decimal (index i)))),
)
