-- ===== src/Obd/Protocol/Reading.antt =====
-- The response of Mode 01 as a tester reads it: identifier and data, one parameter after another.
use ecu_simulator.Prelude.{
  ℕ, zero, suc, ◌≤◌, ◌<◌, ◌≡◌, refl, ap, false, Option, none, some, List, [], ◌∷◌, ◌++◌, arith, ltb,
  if◌then◌else◌, ok-injective, length, take, drop, length-append, Result, ok, err, ◌>>=◌, >>=-eq-ok,
}
use ecu_simulator.Bytes.{Bytes}
use ecu_simulator.Vehicle.Floats.{Floats}
use ecu_simulator.Vehicle.State.{VehicleState}
use ecu_simulator.Obd.Protocol.{
  parameters_to_answer, mode01_parameter, echoed, mode01_body, unless_empty, mode01,
}
use ecu_simulator.Obd.Protocol.Mode01.{data_size, SizedAnswer, mode01_parameter-Sized}

take-append : (n : ℕ) (xs ys : Bytes) → length xs ≡ n → take n (xs ++ ys) ≡ xs
take-append zero [] ys e = refl
take-append zero (x ∷ xs) ys e = absurd (omega arith)
take-append (suc n) [] ys e = absurd (omega arith)
take-append (suc n) (x ∷ xs) ys e = ap (λ (r : Bytes). x ∷ r) (take-append n xs ys (omega arith))

drop-append : (n : ℕ) (xs ys : Bytes) → length xs ≡ n → drop n (xs ++ ys) ≡ ys
drop-append zero [] ys e = refl
drop-append zero (x ∷ xs) ys e = absurd (omega arith)
drop-append (suc n) [] ys e = absurd (omega arith)
drop-append (suc n) (x ∷ xs) ys e = drop-append n xs ys (omega arith)

abbrev Answer : Type 0
Answer = ℕ × Bytes

abbrev before : Answer → Option (List Answer) → Option (List Answer)
before a none = none
before a (some rest) = some (a ∷ rest)

module _ ⦃F : Floats⦄ where
  -- A tester's reading of a response body, with a bound on the number of parameters.
  unfoldable pub read_answers : ℕ → Bytes → Option (List (ℕ × Bytes))
  read_answers zero [] = some []
  read_answers zero (b ∷ bs) = none
  read_answers (suc bound) [] = some []
  read_answers (suc bound) (pid ∷ rest) =
      let n = data_size pid in
      let more = before (pid, take n rest) (read_answers bound (drop n rest)) in
      if ltb (length rest) n then none else more

  abbrev kept : ℕ → Result (Option Bytes) → List (ℕ × Bytes) → List (ℕ × Bytes)
  kept pid (ok (some bs)) rest = (pid, bs) ∷ rest
  kept pid (ok none) rest = rest
  kept pid (err e) rest = rest

  -- What the vehicle answers to the parameters, without those that it does not answer.
  unfoldable pub answers : VehicleState → List ℕ → List (ℕ × Bytes)
  answers vehicle [] = []
  answers vehicle (pid ∷ rest) = kept pid (mode01_parameter vehicle pid) (answers vehicle rest)

  read_one :
      (pid bound : ℕ) (bs body : Bytes) (rest : List (ℕ × Bytes))
      → length bs ≡ data_size pid
      → read_answers bound body ≡ some rest
      → read_answers (suc bound) (pid ∷ (bs ++ body)) ≡ some ((pid, bs) ∷ rest)
  unfolding read_answers
  read_one pid bound bs body rest size ih =
      let fits : ltb (length (bs ++ body)) (data_size pid) ≡ false =
        ground (arith, length-append bs body) in
      rw (
        fits,
        take-append (data_size pid) bs body size,
        drop-append (data_size pid) bs body size,
        ih,
      )

  read-next :
      (pid bound : ℕ) (answer : Result (Option Bytes)) (more : Result Bytes)
      (rest : List (ℕ × Bytes)) (body : Bytes)
      → ((n : ℕ) (b : Bytes) → more ≡ ok b → length b ≤ n → read_answers n b ≡ some rest)
      → SizedAnswer (data_size pid) answer
      → (answer >>= λ a. more >>= λ b. ok (echoed pid a ++ b)) ≡ ok body
      → length body ≤ bound
      → read_answers bound body ≡ some (kept pid answer rest)
  read-next pid bound (err why) more rest body ih size e h = cc
  read-next pid bound (ok none) (err why) rest body ih size e h = cc
  read-next pid bound (ok none) (ok b) rest body ih size e h =
      let same : b ≡ body = ok-injective e in ih bound body (ap ok same) h
  read-next pid bound (ok (some bs)) (err why) rest body ih size e h = cc
  read-next pid zero (ok (some bs)) (ok b) rest body ih size e h =
      let same : pid ∷ (bs ++ b) ≡ body = ok-injective e in
      absurd (omega (arith, ap (length {0}) same))
  read-next pid (suc bound) (ok (some bs)) (ok b) rest body ih size e h =
      let same : pid ∷ (bs ++ b) ≡ body = ok-injective e in
      rw (← same) (
        read_one pid bound bs b rest size
          (ih bound b refl (omega (arith, ap (length {0}) same, length-append bs b))))

  read-body :
      (vehicle : VehicleState) (pids : List ℕ) (bound : ℕ) (body : Bytes)
      → mode01_body vehicle pids ≡ ok body
      → length body ≤ bound
      → read_answers bound body ≡ some (answers vehicle pids)
  unfolding mode01_body answers
  read-body vehicle [] zero body e h =
      let same : [] ≡ body = ok-injective e in rw (← same) (unfold read_answers in refl)
  read-body vehicle [] (suc bound) body e h =
      let same : [] ≡ body = ok-injective e in rw (← same) (unfold read_answers in refl)
  read-body vehicle (pid ∷ rest) bound body e h =
      read-next pid bound (mode01_parameter vehicle pid) (mode01_body vehicle rest)
        (answers vehicle rest) body (λ n b f k. read-body vehicle rest n b f k)
        (mode01_parameter-Sized vehicle pid) e h

  unless-some :
      (body response : Bytes)
      → unless_empty body ≡ some response
      → (response ≡ 0x41 ∷ body) × (0 < length body)
  unless-some [] response e = cc
  unless-some (b ∷ bs) response e = (cc, omega arith)

  -- A response to Mode 01 begins with 0x41, and a tester who knows how many data bytes follow each
  -- identifier reads the rest as exactly the answers of the vehicle to the selected parameters, in
  -- their order: there is at least one, and nothing is left over.
  pub mode01-read :
      (vehicle : VehicleState) (requested response : Bytes)
      → mode01 vehicle requested ≡ ok (some response)
      → (body : Bytes) × (response ≡ 0x41 ∷ body)
        × (0 < length body)
        × (read_answers (length body) body
            ≡ some (answers vehicle (parameters_to_answer requested)))
  unfolding mode01
  mode01-read vehicle requested response e =
      let (body, made, sent) =
        >>=-eq-ok (mode01_body vehicle (parameters_to_answer requested)) (λ b. ok (unless_empty b))
          e in
      let (framed, any_answer) = unless-some body response (ok-injective sent) in
      (body, framed, any_answer, read-body vehicle _ (length body) body made (omega arith))
