-- ===== src/PieceCache/Retries.antt =====
-- A speculative load that fails, and the demand load that follows it (src/nunspark/piece_cache.py).
use nunspark.Base.{
  ℕ, ◌≤◌, ◌≡◌, refl, ◌∙◌, inl, inr, true, false, List, [], ◌∷◌, none, arith, ltb, ltb→lt,
  Bool-cases,
}
use nunspark.PieceCache.Pieces.{Pid, Weights, piece_bytes, is_expert}
use nunspark.PieceCache.Table.{member, lookup, has}
use nunspark.PieceCache.State.{Cache}
use nunspark.PieceCache.Evict.{evict_locked, evict_experts, evict_main}
use nunspark.PieceCache.Ops.{
  region, note_peak, owner, reserve, get_miss, get_enter, make_room, stage_locked, arrive, land,
}
use nunspark.PieceCache.Absent.{IsAbsent, IsAbsent-region}
use nunspark.PieceCache.Presence.{has-evict_scan}
use nunspark.PieceCache.Kept.{has-assign_self}
use nunspark.PieceCache.Reservations.{get_enter-miss, get_staged-miss}

has-lookup : {V : Type 0} (q : Pid) (t : List (Pid × V)) → has q t ≡ false → lookup q t ≡ none
unfolding has lookup
has-lookup q [] h = refl
has-lookup q ((p, v) ∷ t) h = ground (arith, has-lookup q t)

-- A `get` of a piece that is in no table and not reserved loads it.
pub get_enter-owner :
    (s : Cache) (p : Pid)
    → IsAbsent s p
    → member p s.inflight ≡ false
    → get_enter s p ≡ (reserve s p, owner)
unfolding get_miss
get_enter-owner s p gone fresh =
    get_enter-miss s p (has-lookup p (region s p) (IsAbsent-region s p gone))
    ∙ get_staged-miss s p (has-lookup p s.staging gone.staging)
    ∙ rw fresh refl

ltb-large : (a b : ℕ) → b ≤ a → ltb a b ≡ false
ltb-large a b h = elim (Bool-cases (ltb a b)) [
  | inl less ↦ absurd (omega (arith, ltb→lt a b less))
  | inr e ↦ e
]

guess-staged :
    (s : Cache) (p : Pid) (w : Weights)
    → is_expert p ≡ true
    → has p s.experts ≡ false
    → member p s.spec_pending ≡ true
    → piece_bytes w ≤ s.staging_cap
    → (has p (land s p w).staging ≡ true) × (has p (land s p w).experts ≡ false)
unfolding land arrive stage_locked note_peak evict_locked evict_experts evict_main
guess-staged s p w ex gone guess fits =
    rw (guess, ex, ltb-large s.staging_cap (piece_bytes w) fits)
      (
        has-assign_self p (record { weights = w; nbytes = piece_bytes w; epoch = s.epoch })
            (make_room s.staging_cap (piece_bytes w) s.staging_bytes s.staging).staging,
        has-evict_scan p s.pinned p s.expert_budget _ s.experts gone,
      )

-- When a guess is still marked as pending although nothing has it reserved, as it is after its load
-- failed, a `get` that then loads the expert itself puts it into the staging buffer and not among the
-- resident experts, whenever the expert fits into the buffer.
pub retry-staged :
    (s : Cache) (p : Pid) (w : Weights)
    → is_expert p ≡ true
    → IsAbsent s p
    → member p s.inflight ≡ false
    → member p s.spec_pending ≡ true
    → piece_bytes w ≤ s.staging_cap
    → ((get_enter s p).1 ≡ owner)
      × (has p (land (get_enter s p).0 p w).staging ≡ true)
      × (has p (land (get_enter s p).0 p w).experts ≡ false)
unfolding reserve
retry-staged s p w ex gone fresh guess fits =
    let (staged, kept_out) = guess-staged (reserve s p) p w ex (gone.experts ex) guess fits in
    rw (get_enter-owner s p gone fresh) (refl, staged, kept_out)
