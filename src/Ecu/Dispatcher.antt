-- ===== src/Ecu/Dispatcher.antt =====
-- src/ecu_simulator/ecu/dispatcher.py: the request handler of a transport. `S` is the state of the
-- whole simulator, and `sync` the callable that brings it up to date before each request.
mod Resolved
pub mod Laws
use ecu_simulator.Prelude.{
  ℕ, zero, suc, ◌+◌, ◌-◌, ◌*◌, ◌/◌, ◌%◌, ◌^◌, ◌≤◌, ◌<◌, bit_and, bit_or, String, ◌≡◌, refl, sym, ap,
  ◌∙◌, ◌≢◌, ◌↔◌, ◌⊎◌, inl, inr, Bool, true, false, not, ◌&&◌, ◌||◌, Option, none, some, List, [],
  ◌∷◌, ◌++◌, map, arith, str_eq, eq_iff, ltb, leb, ◌==◌, if◌then◌else◌, ltb→lt, lt→ltb, leb→le,
  le→leb, ==_iff, Bool-cases, Option-cases, Result-cases, ok-injective, &&-true, length, get_elem?,
  take, drop, replicate, any, all, select, All, length-append, length-take, length-replicate,
  length-map, All-append, contains, ℤ, pos, negsuc, clamp, ◌+ℤ◌, ◌*ℤ◌, sub_ℕ, ltb_ℤ, Error,
  value_error, key_error, type_error, overflow_error, index_error, traverse, as_some,
  not_implemented, unknown_signal, service_conflict, route_conflict, provider_conflict, Result, ok,
  err, ◌>>=◌, ◌>>◌, raise_if, or_raise, >>=-eq-ok,
}
use ecu_simulator.Base.{DiagnosticProtocol}
use ecu_simulator.Transport.Messages.{DiagnosticRequest, DiagnosticResponse}
use ecu_simulator.Ecu.Router.{Route, names, AddressRouter, all_routes, resolve}
use ecu_simulator.Ecu.Ecu.{Ecu, handle}

-- `_reject_fan_out`
unfoldable pub reject_fan_out : List Route → Result (Unit {0})
reject_fan_out routes = raise_if (ltb 1 (length routes)) not_implemented

-- the last loop of `__init__`
unfoldable pub no_fan_out : List (ℕ × List Route) → Result (Unit {0})
no_fan_out [] = ok tt
no_fan_out ((address, routes) ∷ rest) = reject_fan_out routes >> no_fan_out rest

pub record Dispatcher {ℓ} (S : Type ℓ) : Type ℓ where
  pub router : AddressRouter
  pub ecus : List (Ecu S)
  pub sync : Option (S → Result (Unit {0}) × S)

module _ {ℓ} {S : Type ℓ} where
  -- `by_name[name]`
  unfoldable pub ecu_named : List (Ecu S) → String → Option (Ecu S)
  ecu_named [] name = none
  ecu_named (e ∷ rest) name = if str_eq e.name name then some e else ecu_named rest name

  -- the first loop of `__init__`
  unfoldable pub has_duplicate : List (Ecu S) → Bool
  has_duplicate [] = false
  has_duplicate (e ∷ rest) = any (λ (f : Ecu S). str_eq f.name e.name) rest || has_duplicate rest

  -- `router.ecu_names - set(by_name)`, as a condition on the routes
  unfoldable pub is_unknown : List (Ecu S) → Route → Bool
  is_unknown ecus route = elim (ecu_named ecus route.ecu) [ none ↦ true | some e ↦ false ]

  -- `route.protocols - served`, as a condition
  unfoldable pub is_missing : List (Ecu S) → Route → Bool
  is_missing ecus route = elim (ecu_named ecus route.ecu) [
    | none ↦ false
    | some e ↦ not (
        all (λ n. names n (map (λ (p : DiagnosticProtocol S). p.name) e.protocols)) route.protocols)
  ]

  -- `Dispatcher.__init__`
  unfoldable pub make_dispatcher :
      AddressRouter → List (Ecu S) → Option (S → Result (Unit {0}) × S) → Result (Dispatcher S)
  make_dispatcher router ecus sync =
      raise_if (has_duplicate ecus) value_error
      >> (raise_if (any (is_unknown ecus) (all_routes router)) value_error
          >> (raise_if (any (is_missing ecus) (all_routes router)) value_error
              >> (no_fan_out router.functional
                  >> ok (record { router = router; ecus = ecus; sync = sync }))))

  -- the end of `__call__`, from the resolved routes on
  unfoldable pub route_to :
      List (Ecu S) → S → DiagnosticRequest → List Route → Result (Option DiagnosticResponse) × S
  route_to ecus s request [] = (ok none, s)
  route_to ecus s request (route ∷ rest) = elim (reject_fan_out (route ∷ rest)) [
    | err e ↦ (err e, s)
    | ok _ ↦ elim (ecu_named ecus route.ecu) [
      | none ↦ (err key_error, s)
      | some e ↦ handle e s request route
    ]
  ]

  abbrev pub synced : Option (S → Result (Unit {0}) × S) → S → Result (Unit {0}) × S
  synced none s = (ok tt, s)
  synced (some sync) s = sync s

  abbrev pub after_sync :
      Result (Unit {0}) × S
      → (S → Result (Option DiagnosticResponse) × S)
      → Result (Option DiagnosticResponse) × S
  after_sync (ok _, s) continue = continue s
  after_sync (err e, s) continue = (err e, s)

  -- `Dispatcher.__call__`; the `context` that it strips is not part of a request here
  unfoldable pub call :
      Dispatcher S → S → DiagnosticRequest → Result (Option DiagnosticResponse) × S
  call d s request =
      after_sync (synced d.sync s) (λ t. route_to d.ecus t request (resolve d.router request))
