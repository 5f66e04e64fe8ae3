-- ===== src/State/Presence/Newest.antt =====
-- The newest of what the instances have: the idle time, the away message and the profile of a session.
mod Search
mod Loops
pub use Search.{IsNewest}
pub use Loops.{since, time_ok}
use Prim.Native.Nat.{bit_and}
use bencoscar.Prelude.Bits.{bit_and-one, bit_and-sixth}
use bencoscar.Prelude.{
  zero, suc, ◌/◌, ◌%◌, bytes_eq, length, ℕ, ◌≤◌, ◌≡◌, refl, sym, ap, ◌∙◌, subst, List, [], ◌∷◌, map,
  Option, none, some, Bool, true, false, not, ◌&&◌, ◌||◌, ◌⊎◌, inl, inr, ◌==◌, ltb, if◌then◌else◌,
  All, arith, Bool-cases,
}
use bencoscar.State.Presence.Newest.Search.{newer, newest, newest-IsNewest}
use bencoscar.State.Presence.{
  UserProfile, Client, is_empty_profile, no_profile, away, latest_away, session_away_message,
  every_idle, session_idle, is_zero_profile, recent_idle_time, session_idle_time, latest_profile,
  session_profile,
}
use bencoscar.State.Presence.Newest.Loops.{
  profile_code, latest_profile-newest, away_code, latest_away-newest, recent_idle_time-newest,
}

-- What counts, told without the code: a profile that was set and whose text is neither empty nor a null
-- byte, and an instance with the flag 0x20 or the status 1.
abbrev pub has_text : List ℕ → Bool
has_text [] = false
has_text (zero ∷ []) = false
has_text (zero ∷ b ∷ s) = true
has_text (suc n ∷ s) = true

abbrev pub profile_ok : UserProfile → Bool
profile_ok p = has_text p.profile_text && not (p.update_time == 0)

profile_code-ok : (p : UserProfile) → profile_code p ≡ profile_ok p
unfolding is_empty_profile is_zero_profile
profile_code-ok p = go (p.update_time == 0) p.profile_text
  where
    go :
        (z : Bool) (s : List ℕ)
        → not (z || bytes_eq s [] || bytes_eq s (0 ∷ [])) ≡ (has_text s && not z)
    go true [] = refl
    go false [] = refl
    go true (zero ∷ []) = refl
    go false (zero ∷ []) = refl
    go true (zero ∷ b ∷ s) = refl
    go false (zero ∷ b ∷ s) = refl
    go true (suc n ∷ s) = refl
    go false (suc n ∷ s) = ground arith

abbrev pub is_odd : ℕ → Bool
is_odd n = n % 2 == 1

abbrev pub away_ok : Option Client → Bool
away_ok none = false
away_ok (some c) = is_odd (c.user_info_bitmask / 32) || is_odd c.user_status_bitmask

sixth_odd : (n : ℕ) → not (bit_and n 0x20 == 0) ≡ is_odd (n / 32)
sixth_odd n = ap (λ z. not (z == 0)) (bit_and-sixth n) ∙ ground arith

first_odd : (n : ℕ) → not (bit_and n 1 == 0) ≡ is_odd n
first_odd n = ap (λ z. not (z == 0)) (bit_and-one n) ∙ ground arith

away_code-ok : (o : Option Client) → away_code o ≡ away_ok o
unfolding away
away_code-ok none = refl
away_code-ok (some c) = λ k. sixth_odd c.user_info_bitmask k || first_odd c.user_status_bitmask k

-- Some instance is not idle.
abbrev pub HasBusy : List Client → Type 0
HasBusy [] = ⊥
HasBusy (c ∷ cs) = (c.idle ≡ false) ⊎ HasBusy cs

abbrev pub IsIdle : Client → Type 0
IsIdle c = c.idle ≡ true

every_idle-cases :
    (cs : List Client)
    → ((every_idle cs ≡ false) × HasBusy cs) ⊎ ((every_idle cs ≡ true) × All IsIdle cs)
unfolding every_idle
every_idle-cases [] = inr (refl, tt)
every_idle-cases (c ∷ cs) = elim (Bool-cases c.idle) [
  | inr f ↦ inl (ap (λ b. if not b then false else every_idle cs) f, inl f)
  | inl t ↦ elim (every_idle-cases cs) [
    | inl (e, h) ↦ inl (ap (λ b. if not b then false else every_idle cs) t ∙ e, inr h)
    | inr (e, h) ↦ inr (ap (λ b. if not b then false else every_idle cs) t ∙ e, (t, h))
  ]
]

session_idle-cases :
    (cs : List Client)
    → (((cs ≡ []) ⊎ HasBusy cs) × (session_idle cs ≡ false))
      ⊎ ((1 ≤ length cs) × All IsIdle cs × (session_idle cs ≡ true) × (every_idle cs ≡ true))
unfolding session_idle
session_idle-cases [] = inl (inl refl, refl)
session_idle-cases (c ∷ cs) = elim (every_idle-cases (c ∷ cs)) [
  | inl (e, h) ↦ inl (inr h, e)
  | inr (e, h) ↦ inr (omega arith, h, e, e)
]

-- What AwayMessage makes of the instance that it has found.
abbrev pub message_of : Option Client → List ℕ
message_of none = []
message_of (some l) = l.away_msg

-- The profile of a session is a profile of an instance that is not empty, or the zero profile; if any
-- is not empty, neither is that of the session, and none that is not empty is newer. Its away message is
-- that of an instance that is away, of which none is away since a later time, or empty if none is away.
-- It is idle exactly if it has an instance and none that is not idle; its idle time is then the latest
-- of the instances, and else 0.
pub session_idle_time-IsNewest :
    (cs : List Client)
    → IsNewest profile_ok
        (λ p. p.update_time)
        no_profile
        (map (λ c. c.profile) cs)
        (session_profile cs)
      × (session_away_message cs ≡ message_of (latest_away cs none))
      × IsNewest away_ok since none (map some cs) (latest_away cs none)
      × ((((cs ≡ []) ⊎ HasBusy cs) × (session_idle cs ≡ false) × (session_idle_time cs ≡ 0))
          ⊎ ((1 ≤ length cs)
              × All IsIdle cs
              × (session_idle cs ≡ true)
              × IsNewest time_ok (λ t. t) 0 (map (λ c. c.idle_time) cs) (session_idle_time cs)))
unfolding session_profile session_away_message session_idle_time
session_idle_time-IsNewest cs = (
  subst
      (λ ok.
        IsNewest ok (λ p. p.update_time) no_profile (map (λ c. c.profile) cs) (session_profile cs))
      (λ k p. profile_code-ok p k)
      (subst (IsNewest profile_code (λ p. p.update_time) no_profile (map (λ c. c.profile) cs))
        (sym (latest_profile-newest cs no_profile))
        (newest-IsNewest profile_code (λ p. p.update_time) (map (λ c. c.profile) cs) no_profile)),
  message (latest_away cs none),
  subst (λ ok. IsNewest ok since none (map some cs) (latest_away cs none)) (λ k o. away_code-ok o k)
      (subst (IsNewest away_code since none (map some cs)) (sym (latest_away-newest cs none tt))
        (newest-IsNewest away_code since (map some cs) none)),
  elim (session_idle-cases cs) [
    | inl (h, f) ↦ inl (h, f, ap (λ b. if not b then 0 else recent_idle_time cs 0) f)
    | inr (n, h, t, every) ↦ inr (
      n,
      h,
      t,
      subst (IsNewest time_ok (λ a. a) 0 (map (λ c. c.idle_time) cs))
          (sym (
            ap (λ b. if not b then 0 else recent_idle_time cs 0) t
            ∙ recent_idle_time-newest cs 0 every))
          (newest-IsNewest time_ok (λ a. a) (map (λ c. c.idle_time) cs) 0),
    )
  ],
)
  where
    message : (o : Option Client) → elim o [ none ↦ [] | some l ↦ l.away_msg ] ≡ message_of o
    message none = refl
    message (some l) = refl
