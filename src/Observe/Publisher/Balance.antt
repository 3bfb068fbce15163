-- ===== src/Observe/Publisher/Balance.antt =====
-- What retiring a connection keeps: the totals are those of the connections that were folded in.
use ecu_simulator.Prelude.{
  ℕ, zero, suc, ◌+◌, ◌-◌, ◌≤◌, ◌≡◌, refl, inl, inr, true, false, some, List, [], ◌∷◌, ◌++◌, arith,
  ◌==◌, if◌then◌else◌, ==_iff, Bool-cases, length, drop, All, length-append, All-append,
}
use ecu_simulator.Observe.Limits.{closed_ledgers_kept}
use ecu_simulator.Observe.Connection.{Connection, ledger, is_closed, queued}
use ecu_simulator.Observe.Connection.Counts.{IsBalanced}
use ecu_simulator.Observe.Publisher.{
  Totals, Publisher, span, add_ledger, fold_each, fold, append_bounded, retire, is_forced,
}

-- A connection that has closed, at which each publication between was offered.
pub record IsShut (c : Connection) : Type 0 where
  pub balanced : IsBalanced c
  pub closed : is_closed c ≡ true
  pub spanned : c.published_at_close ≡ some (c.published_at_open + c.offered)

-- A connection of the publisher's list, open or just closed.
pub record IsLive (published : ℕ) (c : Connection) : Type 0 where
  pub balanced : IsBalanced c
  pub current : is_closed c ≡ false → published ≡ c.published_at_open + c.offered
  pub spanned : is_closed c ≡ true → c.published_at_close ≡ some (c.published_at_open + c.offered)

pub record IsEven (t : Totals) : Type 0 where
  pub spans : t.published_span ≡ t.offered
  pub offers : t.offered ≡ t.enqueued + t.client_dropped
  pub outcomes : t.enqueued ≡ t.sent + t.delivery_unknown + t.discarded_on_close

shut_span : (c : Connection) (published : ℕ) → IsShut c → span (ledger c published) ≡ c.offered
unfolding ledger
shut_span c published h = rw (h.closed, h.spanned) (omega arith)

add_ledger-IsEven :
    (t : Totals) (c : Connection) (published : ℕ)
    → IsShut c
    → queued c ≡ 0
    → IsEven t
    → IsEven (add_ledger t (ledger c published))
      × ((add_ledger t (ledger c published)).connections ≡ suc t.connections)
unfolding add_ledger
add_ledger-IsEven t c published h done e =
    let b = h.balanced in
    let s = shut_span c published h in
    unfold ledger in
    (
      record {
        spans = omega (arith, s, e.spans);
        offers = omega (arith, b.offers, e.offers);
        outcomes = omega (arith, b.outcomes, e.outcomes, done);
      },
      omega arith,
    )

fold_each-IsEven :
    (published : ℕ) (cs : List Connection) (t : Totals)
    → All IsShut cs
    → IsEven t
    → let out = fold_each published cs t in
      All IsShut out.0
      × IsEven out.1
      × (out.1.connections + length out.0 ≡ t.connections + length cs)
unfolding fold_each
fold_each-IsEven published [] t h e = (tt, e, refl)
fold_each-IsEven published (c ∷ rest) t h e = elim (Bool-cases ((ledger c published).queued == 0)) [
  | inl done ↦
      let more =
        add_ledger-IsEven t c published h.0 (unfold ledger in (==_iff (queued c) 0).0 done) e in
      let ih = fold_each-IsEven published rest (add_ledger t (ledger c published)) h.1 more.0 in
      rw (done, fold_each) (ih.0, ih.1, omega (arith, ih.2, more.1))
  | inr waits ↦
      let ih = fold_each-IsEven published rest t h.1 e in
      rw (waits, fold_each) ((h.0, ih.0), ih.1, omega (arith, ih.2))
]

-- The part of the publisher that holds connections that have closed.
pub record IsSettled (p : Publisher) : Type 0 where
  pub shut : All IsShut p.closed
  pub waiting : All IsShut p.unresolved
  pub even : IsEven p.totals
  pub few : length p.closed ≤ closed_ledgers_kept

-- the connections that have been retired
abbrev pub retired : Publisher → ℕ
retired p = p.totals.connections + length p.unresolved

pub fold-IsSettled :
    (p : Publisher) → IsSettled p → IsSettled (fold p) × (retired (fold p) ≡ retired p)
unfolding fold
fold-IsSettled p s =
    let out = fold_each-IsEven p.published p.unresolved p.totals s.waiting s.even in
    (record { shut = s.shut; waiting = out.0; even = out.1; few = s.few }, out.2)

All-drop : (n : ℕ) (cs : List Connection) → All IsShut cs → All IsShut (drop n cs)
All-drop zero cs h = h
All-drop (suc n) [] h = h
All-drop (suc n) (c ∷ rest) h = All-drop n rest h.1

length-drop : (n : ℕ) (cs : List Connection) → length (drop n cs) ≡ length cs - n
length-drop zero cs = omega arith
length-drop (suc n) [] = omega arith
length-drop (suc n) (c ∷ rest) = omega (arith, length-drop n rest)

bounded-few :
    (most : ℕ) (cs : List Connection) (c : Connection) → length (append_bounded most cs c) ≤ most
bounded-few most cs c = omega (arith, length-drop (length (cs ++ c ∷ []) - most) (cs ++ c ∷ []))

pub retire-IsSettled :
    (p : Publisher) (c : Connection)
    → IsShut c
    → IsSettled p
    → IsSettled (retire p c) × (retired (retire p c) ≡ suc (retired p))
unfolding retire
retire-IsSettled p c h s =
    let both = All-append IsShut p.closed (c ∷ []) s.shut (h, tt) in
    let mid = record p {
      forced_disconnects = if is_forced c then p.forced_disconnects + 1 else p.forced_disconnects;
      closed = append_bounded closed_ledgers_kept p.closed c;
      unresolved = p.unresolved ++ c ∷ [];
    } in
    let out = fold-IsSettled mid (record {
      shut = All-drop (length (p.closed ++ c ∷ []) - closed_ledgers_kept) (p.closed ++ c ∷ []) both;
      waiting = All-append IsShut p.unresolved (c ∷ []) s.waiting (h, tt);
      even = s.even;
      few = bounded-few closed_ledgers_kept p.closed c;
    }) in
    (out.0, omega (arith, out.1, length-append p.unresolved (c ∷ [])))
