-- ===== src/Client/Split.antt =====
-- The list of users as entries between commas, against the loop of
-- `ChatClient::process_user_joined_list` that walks over it by positions.
use axn_chat_app.Prelude.{
  ℕ, zero, suc, ◌+◌, ◌-◌, ◌<◌, ◌≤◌, ◌≡◌, ◌≢◌, refl, ap, sym, ◌∙◌, false, none, some, List, [], ◌∷◌,
  ◌++◌, Bytes, length, take, drop, All, ltb, ◌==◌, if◌then◌else◌, Bool-cases, Option-cases, inl,
  inr, arith,
}
use axn_chat_app.Prelude.Map.{Map}
use axn_chat_app.Client.Strings.{find}
use axn_chat_app.Client.State.{Handled, done, throws, out_of_bounds, stuck}
use axn_chat_app.Client.Handlers.{enter_user, then_with, user_list_loop}

abbrev on_head : ℕ → List Bytes → List Bytes
on_head b [] = (b ∷ []) ∷ []
on_head b (w ∷ ws) = (b ∷ w) ∷ ws

-- The pieces of a string between the bytes `c`.
unfoldable pub split : ℕ → Bytes → List Bytes
split c [] = [] ∷ []
split c (b ∷ bs) = let rest = split c bs in if b == c then [] ∷ rest else on_head b rest

-- One entry after the other.
unfoldable pub enter_users : List Bytes → Map Bytes → Handled (Map Bytes)
enter_users [] users = done users
enter_users (w ∷ ws) users = then_with (enter_user users w) (enter_users ws)

split_none : (c : ℕ) (s : Bytes) → find c s ≡ none → split c s ≡ s ∷ []
unfolding find split
split_none c [] h = refl
split_none c (b ∷ bs) h = elim (Option-cases (find c bs)) [
  | inl absent ↦ rw (split_none c bs absent) (ground arith)
  | inr (k, found) ↦ absurd (ground arith)
]

split_some :
    (c k : ℕ) (s : Bytes)
    → find c s ≡ some k
    → (k < length s) × (split c s ≡ take k s ∷ split c (drop (suc k) s))
unfolding find split
split_some c k [] h = cc
split_some c k (b ∷ bs) h = elim (Bool-cases (b == c)) [
  | inl here ↦ let first : 0 ≡ k = ground arith in rw (sym first, here) (omega arith, refl)
  | inr there ↦ elim (Option-cases (find c bs)) [
    | inl absent ↦ absurd (ground arith)
    | inr (j, found) ↦
        let (below, e) = split_some c j bs found in
        let at : suc j ≡ k = ground arith in rw (sym at, there, e) (omega arith, refl)
  ]
]

drop_nil : (k : ℕ) → drop {A = ℕ} k [] ≡ []
drop_nil zero = refl
drop_nil (suc k) = refl

drop_past : (k : ℕ) (s : Bytes) → length s ≤ k → drop k s ≡ []
drop_past k [] h = drop_nil k
drop_past zero (b ∷ bs) h = elim h [ ]
drop_past (suc k) (b ∷ bs) h = drop_past k bs (omega arith)

pub take_all : (k : ℕ) (s : Bytes) → length s ≤ k → take k s ≡ s
take_all zero [] h = refl
take_all (suc k) [] h = refl
take_all zero (b ∷ bs) h = elim h [ ]
take_all (suc k) (b ∷ bs) h = ap (λ t. b ∷ t) (take_all k bs (omega arith))

drop-drop : (j k : ℕ) (s : Bytes) → drop j (drop k s) ≡ drop (k + j) s
drop-drop j zero s = let e : j ≡ 0 + j = omega arith in ap (λ n. drop n s) e
drop-drop j (suc k) [] = drop_nil j ∙ sym (drop_nil (suc k + j))
drop-drop j (suc k) (b ∷ bs) =
    let e : suc (k + j) ≡ suc k + j = omega arith in drop-drop j k bs ∙ ap (λ n. drop n (b ∷ bs)) e

length-drop : (k : ℕ) (s : Bytes) → length (drop k s) ≡ length s - k
length-drop zero s = omega arith
length-drop (suc k) [] = omega arith
length-drop (suc k) (b ∷ bs) = omega (arith, length-drop k bs)

then_with-cong :
    (x : Handled (Map Bytes)) {f g : Map Bytes → Handled (Map Bytes)}
    → ((users : Map Bytes) → f users ≡ g users)
    → then_with x f ≡ then_with x g
then_with-cong (done users) h = h users
then_with-cong throws h = refl
then_with-cong out_of_bounds h = refl
then_with-cong stuck h = refl

enter_users-one : (w : Bytes) (users : Map Bytes) → enter_users (w ∷ []) users ≡ enter_user users w
unfolding enter_users
enter_users-one w users = elim (enter_user users w) as (λ x. then_with x (λ u. done u) ≡ x) [
  | done u ↦ refl
  | throws ↦ refl
  | out_of_bounds ↦ refl
  | stuck ↦ refl
]

over :
    (fuel : ℕ) (payload : Bytes) (pos : ℕ) (users : Map Bytes)
    → 0 < fuel
    → length payload ≤ pos
    → user_list_loop fuel payload pos users ≡ done users
unfolding user_list_loop
over zero payload pos users some_fuel h = elim some_fuel [ ]
over (suc fuel) payload pos users some_fuel h =
    let past : ltb pos (length payload) ≡ false = ground arith in rw past refl

split_over :
    (payload : Bytes) (pos : ℕ) (users : Map Bytes)
    → length payload ≤ pos
    → enter_users (split b',' (drop pos payload)) users ≡ done users
unfolding split enter_users enter_user
split_over payload pos users h = rw (drop_past pos payload h) refl

-- The loop, from a position on, enters the pieces of what stands there.
pub loop-split :
    (fuel : ℕ) (payload : Bytes) (pos : ℕ) (users : Map Bytes)
    → length payload - pos < fuel
    → user_list_loop fuel payload pos users ≡ enter_users (split b',' (drop pos payload)) users
unfolding user_list_loop enter_users
loop-split zero payload pos users h = elim h [ ]
loop-split (suc fuel) payload pos users h = elim (Bool-cases (ltb pos (length payload))) [
  | inr past ↦ rw past (sym (split_over payload pos users (ground arith)))
  | inl before ↦
      let left = length-drop pos payload in
      elim (Option-cases (find b',' (drop pos payload))) [
        | inl last ↦
            rw
              (
                before,
                last,
                split_none b',' (drop pos payload) last,
                take_all (length payload - pos) (drop pos payload) (omega (arith, left)),
              )
              (then_with-cong (enter_user users (drop pos payload))
                (λ u. over fuel payload (length payload + 1) u (ground arith) (omega arith)))
        | inr (k, found) ↦
            let (below, pieces) = split_some b',' k (drop pos payload) found in
            let piece : pos + k - pos ≡ k = omega arith in
            let next : pos + suc k ≡ pos + k + 1 = omega arith in
            rw (before, found, pieces, piece)
              (then_with-cong (enter_user users (take k (drop pos payload))) (λ u.
                loop-split fuel payload (pos + k + 1) u (omega (arith, left))
                ∙ ap (λ r. enter_users (split b',' r) u)
                    (sym (drop-drop (suc k) pos payload ∙ ap (λ n. drop n payload) next))))
      ]
]

-- A string without the byte is one piece.
find_absent : (c : ℕ) (s : Bytes) → All (λ b. b ≢ c) s → find c s ≡ none
unfolding find
find_absent c [] h = refl
find_absent c (b ∷ bs) h = rw (find_absent c bs h.1) (ground (arith, h.0))

pub find-append :
    (c : ℕ) (xs ys : Bytes) → All (λ b. b ≢ c) xs → find c (xs ++ c ∷ ys) ≡ some (length xs)
unfolding find
find-append c [] ys h = ground arith
find-append c (x ∷ xs) ys h = rw (find-append c xs ys h.1) (ground (arith, h.0))

pub split-one : (c : ℕ) (s : Bytes) → All (λ b. b ≢ c) s → split c s ≡ s ∷ []
split-one c s h = split_none c s (find_absent c s h)

pub split-append :
    (c : ℕ) (xs ys : Bytes) → All (λ b. b ≢ c) xs → split c (xs ++ c ∷ ys) ≡ xs ∷ split c ys
unfolding split
split-append c [] ys h = ground arith
split-append c (x ∷ xs) ys h = rw (split-append c xs ys h.1) (ground (arith, h.0))
