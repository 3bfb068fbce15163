-- ===== src/Transport/Endpoints/Order.antt =====
-- What the queue of one endpoint does with the responses that are sent on it.
use ecu_simulator.Prelude.{
  ℕ, suc, ◌≡◌, refl, sym, ap, ◌∙◌, ◌⊎◌, inl, inr, Bool, true, false, not, List, [], ◌∷◌, ◌++◌, map,
  Bool-cases, Error, Result, ok, err,
}
use mathlib.Core.List.{append-nil, append_assoc}
use ecu_simulator.Bytes.{Bytes}
use ecu_simulator.Transport.IsoTp.{Os, returned, send}
use ecu_simulator.Transport.Endpoints.{
  EndpointConfig, Endpoint, fresh, sent_now, is_nil, send_on, flush, on_writable,
}

-- A response to send, or a call of `_on_writable`, with the kernel's answers.
pub data Use : Type 0 where
  submitting : Bytes → Os (Unit {0}) → Use
  writable : (ℕ → Os (Unit {0})) → Use

unfoldable pub use_one : Endpoint → Use → Endpoint
use_one e (submitting payload kernel) = send_on e payload kernel
use_one e (writable kernel) = on_writable e kernel

unfoldable pub use_all : Endpoint → List Use → Endpoint
use_all e [] = e
use_all e (u ∷ rest) = use_all (use_one e u) rest

abbrev pub submitted : List Use → List Bytes
submitted [] = []
submitted (submitting payload kernel ∷ rest) = payload ∷ submitted rest
submitted (writable kernel ∷ rest) = submitted rest

abbrev pub payloads : List (Bytes × Bool) → List Bytes
payloads = map (λ (entry : Bytes × Bool). entry.0)

payloads-append : (a b : List (Bytes × Bool)) → payloads (a ++ b) ≡ payloads a ++ payloads b
payloads-append [] b = refl
payloads-append (x ∷ rest) b = ap (λ (l : List Bytes). x.0 ∷ l) (payloads-append rest b)

-- What was handed to the endpoint, in order: what left the queue, and what waits there; and the
-- writer is armed exactly if something waits.
pub record IsQueued (handed : List Bytes) (e : Endpoint) : Type 0 where
  pub ordered : payloads e.log ++ e.pending ≡ handed
  pub armed : e.writer_armed ≡ not (is_nil e.pending)

nil-true : (ps : List Bytes) → is_nil ps ≡ true → ps ≡ []
nil-true [] h = refl
nil-true (p ∷ ps) h = cc

not-nil-append : (ps : List Bytes) (p : Bytes) → not (is_nil (ps ++ p ∷ [])) ≡ true
not-nil-append [] p = refl
not-nil-append (q ∷ ps) p = refl

-- One payload leaves an empty queue, or the head of a queue.
left-queue :
    (log : List (Bytes × Bool)) (payload : Bytes) (taken : Bool) (rest : List Bytes)
    → payloads (log ++ (payload, taken) ∷ []) ++ rest ≡ payloads log ++ payload ∷ rest
left-queue log payload taken rest =
    ap (λ (l : List Bytes). l ++ rest) (payloads-append log ((payload, taken) ∷ []))
    ∙ append_assoc (payloads log) (payload ∷ []) rest

queued :
    (handed : List Bytes) (e : Endpoint) (payload : Bytes)
    → IsQueued handed e
    → IsQueued
        (handed ++ payload ∷ [])
        (record e { pending = e.pending ++ payload ∷ []; writer_armed = true })
queued handed e payload q = record {
  ordered =
      sym (append_assoc (payloads e.log) e.pending (payload ∷ []))
      ∙ ap (λ (l : List Bytes). l ++ payload ∷ []) q.ordered;
  armed = sym (not-nil-append e.pending payload);
}

sent_now-IsQueued :
    (handed : List Bytes) (e : Endpoint) (payload : Bytes) (answer : Result Bool)
    → is_nil e.pending ≡ true
    → IsQueued handed e
    → IsQueued (handed ++ payload ∷ []) (sent_now e payload answer)
sent_now-IsQueued handed e payload (ok false) empty q = queued handed e payload q
sent_now-IsQueued handed e payload (ok true) empty q = record {
  ordered =
      left-queue e.log payload true e.pending
      ∙ ap (λ (l : List Bytes). payloads e.log ++ payload ∷ l) (nil-true e.pending empty)
      ∙ ap (λ (l : List Bytes). l ++ payload ∷ [])
          (sym (append-nil (payloads e.log))
            ∙ ap (λ (l : List Bytes). payloads e.log ++ l) (sym (nil-true e.pending empty))
            ∙ q.ordered);
  armed = q.armed;
}
sent_now-IsQueued handed e payload (err raised) empty q = record {
  ordered =
      left-queue e.log payload false e.pending
      ∙ ap (λ (l : List Bytes). payloads e.log ++ payload ∷ l) (nil-true e.pending empty)
      ∙ ap (λ (l : List Bytes). l ++ payload ∷ [])
          (sym (append-nil (payloads e.log))
            ∙ ap (λ (l : List Bytes). payloads e.log ++ l) (sym (nil-true e.pending empty))
            ∙ q.ordered);
  armed = q.armed;
}

send_on-IsQueued :
    (handed : List Bytes) (e : Endpoint) (payload : Bytes) (kernel : Os (Unit {0}))
    → IsQueued handed e
    → IsQueued (handed ++ payload ∷ []) (send_on e payload kernel)
unfolding send_on
send_on-IsQueued handed e payload kernel q = elim (Bool-cases (is_nil e.pending)) [
  | inl empty ↦ rw empty (sent_now-IsQueued handed e payload (send kernel) empty q)
  | inr waits ↦ rw waits (queued handed e payload q)
]

result_cases : (r : Result Bool) → ((e : Error) × (r ≡ err e)) ⊎ ((r ≡ ok true) ⊎ (r ≡ ok false))
result_cases (err e) = inl (e, refl)
result_cases (ok true) = inr (inl refl)
result_cases (ok false) = inr (inr refl)

flush-IsQueued :
    (handed : List Bytes) (e : Endpoint) (todo : List Bytes) (n : ℕ) (kernel : ℕ → Os (Unit {0}))
    → payloads e.log ++ todo ≡ handed
    → (is_nil todo ≡ false → e.writer_armed ≡ true)
    → IsQueued handed (flush e todo n kernel)
unfolding flush
flush-IsQueued handed e [] n kernel ordered armed = record { ordered = ordered; armed = refl }
flush-IsQueued handed e (payload ∷ rest) n kernel ordered armed =
    let gone = λ (taken : Bool).
      flush-IsQueued handed (record e { log = e.log ++ (payload, taken) ∷ [] }) rest (suc n) kernel
        (left-queue e.log payload taken rest ∙ ordered) (λ _. armed refl) in
    elim (result_cases (send (kernel n))) [
      | inl (raised, e1) ↦ rw (e1, flush) (gone false)
      | inr (inl e2) ↦ rw (e2, flush) (gone true)
      | inr (inr e3) ↦ rw (e3, flush) (record { ordered = ordered; armed = armed refl })
    ]

not-false : (b : Bool) → b ≡ false → not b ≡ true
not-false b h = ap not h

use_one-IsQueued :
    (handed : List Bytes) (e : Endpoint) (kernel : ℕ → Os (Unit {0}))
    → IsQueued handed e
    → IsQueued handed (on_writable e kernel)
unfolding on_writable
use_one-IsQueued handed e kernel q =
    flush-IsQueued handed e e.pending 0 kernel q.ordered
      (λ h. q.armed ∙ not-false (is_nil e.pending) h)

use_all-IsQueued :
    (handed : List Bytes) (e : Endpoint) (uses : List Use)
    → IsQueued handed e
    → IsQueued (handed ++ submitted uses) (use_all e uses)
unfolding use_all use_one
use_all-IsQueued handed e [] q = rw (append-nil handed) q
use_all-IsQueued handed e (submitting payload kernel ∷ rest) q =
    rw (← append_assoc handed (payload ∷ []) (submitted rest)) (
      use_all-IsQueued (handed ++ payload ∷ []) (send_on e payload kernel) rest
        (send_on-IsQueued handed e payload kernel q))
use_all-IsQueued handed e (writable kernel ∷ rest) q =
    use_all-IsQueued handed (on_writable e kernel) rest (use_one-IsQueued handed e kernel q)

-- On an endpoint that was just opened, after any responses to send and any calls of `_on_writable`,
-- whatever the kernel answers: the payloads that the kernel took or refused with an error, in that
-- order, followed by those that wait, are the responses in the order in which they were made; and
-- the writer is armed exactly if a response waits.
pub use_all_lem :
    (config : EndpointConfig) (uses : List Use)
    → let e = use_all (fresh config) uses in
      (payloads e.log ++ e.pending ≡ submitted uses) × (e.writer_armed ≡ not (is_nil e.pending))
use_all_lem config uses =
    let q = use_all-IsQueued [] (fresh config) uses (record { ordered = refl; armed = refl }) in
    (q.ordered, q.armed)

abbrev pub all_taken : List Bytes → List (Bytes × Bool)
all_taken = map (λ (payload : Bytes). (payload, true))

flush_free :
    (e : Endpoint) (todo : List Bytes) (n : ℕ)
    → let after = flush e todo n (λ _. returned tt) in
      (after.log ≡ e.log ++ all_taken todo) × (after.pending ≡ []) × (after.writer_armed ≡ false)
unfolding flush send
flush_free e [] n = (sym (append-nil e.log), refl, refl)
flush_free e (payload ∷ rest) n =
    let ih = flush_free (record e { log = e.log ++ (payload, true) ∷ [] }) rest (suc n) in
    (ih.0 ∙ append_assoc e.log ((payload, true) ∷ []) (all_taken rest), ih.1, ih.2)

-- Once the kernel takes what it is given, one call of `_on_writable` sends each response that waits,
-- in order, and disarms the writer.
pub on_writable-free :
    (e : Endpoint)
    → let after = on_writable e (λ _. returned tt) in
      (after.log ≡ e.log ++ all_taken e.pending)
      × (after.pending ≡ [])
      × (after.writer_armed ≡ false)
unfolding on_writable
on_writable-free e = flush_free e e.pending 0
