-- ===== src/Adapter/Retry.antt =====
-- The retries of internal/adapter/http_carrier.go over a network that gives one reply after another
-- and a context that is not cancelled.
use mathlib.Core.List.{append_assoc, append-nil}
use riskforge.Prelude.{
  ℕ, zero, suc, ◌+◌, ◌*◌, ◌<◌, ◌≤◌, ◌≡◌, sym, ap, ap₂, ◌∙◌, Bool, true, false, not, List, [], ◌∷◌,
  ◌++◌, Option, none, some, ◌⊎◌, inl, inr, length, All, arith,
}
use riskforge.Prelude.Int.{pos, pos_part}
use riskforge.Domain.Errors.{Error, other, wrap}
use riskforge.Adapter.Http.{
  HttpCarrierConfig, with_defaults, Reply, unreachable, do_once, is_client_error, all_failed,
  attempts, post,
}

-- The replies to come, the delays that were waited, the oldest first, and the requests sent.
pub record Net (Out : Type 0) : Type 0 where
  pub replies : List (Reply Out)
  pub waited : List ℕ
  pub sent : ℕ

abbrev pub net : {Out : Type 0} → List (Reply Out) → List ℕ → ℕ → Net Out
net replies waited sent = record { replies = replies; waited = waited; sent = sent }

abbrev pub backoff : ℕ → ℕ → List ℕ
backoff d zero = []
backoff d (suc n) = d ∷ backoff (d * 2) n

module _ {Out : Type 0} where
  abbrev pub send_next : Net Out → Net Out × Reply Out
  send_next w = elim w.replies [
    | [] ↦ (net [] w.waited (w.sent + 1), unreachable (other "no more replies"))
    | r ∷ rs ↦ (net rs w.waited (w.sent + 1), r)
  ]

  abbrev pub wait_all : ℕ → Net Out → Net Out × Option Error
  wait_all d w = (net w.replies (w.waited ++ (d ∷ [])) w.sent, none)

  abbrev verdict : ℕ × (Error ⊎ Out) → Bool
  verdict (status, inr out) = false
  verdict (status, inl e) = not (is_client_error status)

  -- An error that is not a 4xx answer.
  abbrev pub is_transient : Reply Out → Bool
  is_transient r = verdict (do_once r)

  abbrev failure_in : ℕ × (Error ⊎ Out) → Option Error
  failure_in (status, inr out) = none
  failure_in (status, inl e) = some e

  abbrev pub failure_of : Reply Out → Option Error
  failure_of r = failure_in (do_once r)

  abbrev final_of : ℕ × (Error ⊎ Out) → Error ⊎ Out
  final_of (status, inr out) = inr out
  final_of (status, inl e) = inl (wrap "non-retryable status" e)

  abbrev pub answer_to : Reply Out → Error ⊎ Out
  answer_to r = final_of (do_once r)

  retry_step :
      (t : Reply Out) (q : List (Reply Out)) (left n d : ℕ) (last : Option Error) (wd : List ℕ)
      (s : ℕ)
      → is_transient t ≡ true
      → attempts send_next wait_all (suc left) (suc n) d last (net (t ∷ q) wd s)
        ≡ attempts send_next wait_all left
            (suc (suc n))
            (d * 2)
            (failure_of t)
            (net q (wd ++ (d ∷ [])) (s + 1))
  unfolding attempts
  retry_step t q left n d last wd s h = ground arith

  first_step :
      (t : Reply Out) (q : List (Reply Out)) (left d : ℕ) (last : Option Error) (wd : List ℕ)
      (s : ℕ)
      → is_transient t ≡ true
      → attempts send_next wait_all (suc left) 0 d last (net (t ∷ q) wd s)
        ≡ attempts send_next wait_all left 1 d (failure_of t) (net q wd (s + 1))
  unfolding attempts
  first_step t q left d last wd s h = ground arith

  stop_step :
      (r : Reply Out) (q : List (Reply Out)) (left n d : ℕ) (last : Option Error) (wd : List ℕ)
      (s : ℕ)
      → is_transient r ≡ false
      → attempts send_next wait_all (suc left) (suc n) d last (net (r ∷ q) wd s)
        ≡ (net q (wd ++ (d ∷ [])) (s + 1), answer_to r)
  unfolding attempts
  stop_step r q left n d last wd s h = ground arith

  stop_first :
      (r : Reply Out) (q : List (Reply Out)) (left d : ℕ) (last : Option Error) (wd : List ℕ)
      (s : ℕ)
      → is_transient r ≡ false
      → attempts send_next wait_all (suc left) 0 d last (net (r ∷ q) wd s)
        ≡ (net q wd (s + 1), answer_to r)
  unfolding attempts
  stop_first r q left d last wd s h = ground arith

  loop_decisive :
      (ts : List (Reply Out)) (r : Reply Out) (q : List (Reply Out)) (left n d : ℕ)
      (last : Option Error) (wd : List ℕ) (s : ℕ)
      → All (λ t. is_transient t ≡ true) ts
      → is_transient r ≡ false
      → length ts < left
      → attempts send_next wait_all left (suc n) d last (net (ts ++ (r ∷ q)) wd s)
        ≡ (net q (wd ++ backoff d (suc (length ts))) (s + length ts + 1), answer_to r)
  loop_decisive [] r q zero n d last wd s h k l = absurd (omega (arith, l))
  loop_decisive (t ∷ ts) r q zero n d last wd s h k l = absurd (omega (arith, l))
  loop_decisive [] r q (suc left) n d last wd s h k l =
      stop_step r q left n d last wd s k
      ∙ ap (λ m. (net q (wd ++ (d ∷ [])) m, answer_to r)) (omega arith)
  loop_decisive (t ∷ ts) r q (suc left) n d last wd s (h, hs) k l =
      retry_step t (ts ++ (r ∷ q)) left n d last wd s h
      ∙ loop_decisive ts r q left (suc n) (d * 2) (failure_of t) (wd ++ (d ∷ [])) (s + 1) hs k
          (omega (arith, l))
      ∙ ap₂ (λ v m. (net q v m, answer_to r))
          (append_assoc wd (d ∷ []) (backoff (d * 2) (suc (length ts)))) (omega arith)

  -- When at most as many replies as there are retries are transient failures, and the next one is not,
  -- `Post` sends one request for each of these replies and no more, waits the delay, twice the delay,
  -- and so on between them, and returns what the last of them says.
  pub post_decisive :
      (cfg : HttpCarrierConfig) (ts : List (Reply Out)) (r : Reply Out) (q : List (Reply Out))
      → All (λ t. is_transient t ≡ true) ts
      → is_transient r ≡ false
      → length ts ≤ pos_part cfg.max_retries
      → post send_next wait_all cfg (net (ts ++ (r ∷ q)) [] 0)
        ≡ (net q (backoff (pos_part cfg.retry_delay) (length ts)) (length ts + 1), answer_to r)
  unfolding post
  post_decisive cfg [] r q h k l =
      stop_first r q (pos_part cfg.max_retries) (pos_part cfg.retry_delay) none [] 0 k
  post_decisive cfg (t ∷ ts) r q (h, hs) k l =
      first_step t (ts ++ (r ∷ q)) (pos_part cfg.max_retries) (pos_part cfg.retry_delay) none [] 0 h
      ∙ loop_decisive ts r q (pos_part cfg.max_retries) 0 (pos_part cfg.retry_delay) (failure_of t)
          [] (0 + 1) hs k (omega (arith, l))
      ∙ ap (λ m. (net q (backoff (pos_part cfg.retry_delay) (suc (length ts))) m, answer_to r))
          (omega arith)

  abbrev pub last_failure : Option Error → List (Reply Out) → Option Error
  last_failure last [] = last
  last_failure last (t ∷ ts) = last_failure (failure_of t) ts

  net_nil :
      (q : List (Reply Out)) (wd : List ℕ) (s : ℕ) (e : Error ⊎ Out)
      → ◌≡◌ {A = Net Out × (Error ⊎ Out)} (net q wd s, e) (net q (wd ++ []) (s + 0), e)
  net_nil q wd s e = ap₂ (λ v m. (net q v m, e)) (sym (append-nil wd)) (omega arith)

  loop_exhausted :
      (ts : List (Reply Out)) (q : List (Reply Out)) (n d : ℕ) (last : Option Error) (wd : List ℕ)
      (s : ℕ)
      → All (λ t. is_transient t ≡ true) ts
      → attempts send_next wait_all (length ts) (suc n) d last (net (ts ++ q) wd s)
        ≡ (net q (wd ++ backoff d (length ts)) (s + length ts), all_failed (last_failure last ts))
  unfolding attempts
  loop_exhausted [] q n d last wd s h = net_nil q wd s (all_failed last)
  loop_exhausted (t ∷ ts) q n d last wd s (h, hs) =
      retry_step t (ts ++ q) (length ts) n d last wd s h
      ∙ loop_exhausted ts q (suc n) (d * 2) (failure_of t) (wd ++ (d ∷ [])) (s + 1) hs
      ∙ ap₂ (λ v m. (net q v m, all_failed (last_failure (failure_of t) ts)))
          (append_assoc wd (d ∷ []) (backoff (d * 2) (length ts))) (omega arith)

  -- When the first attempt and all retries get transient failures, `Post` has sent one request more
  -- than there are retries, has waited the doubling delays, and returns the last failure, wrapped.
  pub post_exhausted :
      (cfg : HttpCarrierConfig) (t : Reply Out) (ts : List (Reply Out)) (q : List (Reply Out))
      → All (λ u. is_transient u ≡ true) (t ∷ ts)
      → pos_part cfg.max_retries ≡ length ts
      → post send_next wait_all cfg (net ((t ∷ ts) ++ q) [] 0) ≡ (
        net q (backoff (pos_part cfg.retry_delay) (length ts)) (1 + length ts),
        all_failed (last_failure none (t ∷ ts)),
      )
  unfolding post
  post_exhausted cfg t ts q (h, hs) e =
      ap
        (λ m.
          attempts send_next wait_all (suc m) 0 (pos_part cfg.retry_delay) none
            (net ((t ∷ ts) ++ q) [] 0))
        e
      ∙ first_step t (ts ++ q) (length ts) (pos_part cfg.retry_delay) none [] 0 h
      ∙ loop_exhausted ts q 0 (pos_part cfg.retry_delay) (failure_of t) [] (0 + 1) hs

  -- A configuration with no retries is given three by its defaults: four transient failures take four
  -- requests.
  pub retries_not_disabled :
      (c : HttpCarrierConfig) (t₁ t₂ t₃ t₄ : Reply Out) (q : List (Reply Out))
      → c.max_retries ≡ pos 0
      → All (λ u. is_transient u ≡ true) (t₁ ∷ t₂ ∷ t₃ ∷ t₄ ∷ [])
      → (post send_next wait_all (with_defaults c) (net (t₁ ∷ t₂ ∷ t₃ ∷ t₄ ∷ q) [] 0)).0.sent ≡ 4
  unfolding with_defaults
  retries_not_disabled c t₁ t₂ t₃ t₄ q z h =
      ap (λ o. o.0.sent)
        (post_exhausted (with_defaults c) t₁ (t₂ ∷ t₃ ∷ t₄ ∷ []) q h (ground arith))
