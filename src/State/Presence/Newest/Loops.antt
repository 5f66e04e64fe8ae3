-- ===== src/State/Presence/Newest/Loops.antt =====
-- The loops of Profile, AwayMessage and mostRecentIdleTime (state/session.go) are searches for the newest.
use bencoscar.Prelude.{
  ℕ, ◌≡◌, refl, sym, ap, ◌∙◌, List, [], ◌∷◌, map, Option, none, some, Bool, true, false, not, ◌&&◌,
  ◌||◌, inl, inr, ◌==◌, ltb, if◌then◌else◌, arith, Bool-cases,
}
use bencoscar.State.Presence.Newest.Search.{newer, newest}
use bencoscar.State.Presence.{
  UserProfile, Client, is_empty_profile, away, latest_away, every_idle, recent_idle_time,
  latest_profile,
}

-- Profile: what counts is a profile that is not empty.
abbrev pub profile_code : UserProfile → Bool
profile_code p = not (is_empty_profile p)

pub latest_profile-newest :
    (cs : List Client) (p : UserProfile)
    → latest_profile cs p ≡ newest profile_code (λ q. q.update_time) (map (λ c. c.profile) cs) p
unfolding latest_profile
latest_profile-newest [] p = refl
latest_profile-newest (c ∷ cs) p =
    ap (latest_profile cs) (go (is_empty_profile c.profile) (is_empty_profile p))
    ∙ latest_profile-newest cs (newer profile_code (λ q. q.update_time) p c.profile)
  where
    go :
        (a b : Bool)
        → (if a then p else if b || ltb p.update_time c.profile.update_time then c.profile else p)
          ≡ (if not (not a)
              then p
              else if not (not b) || ltb p.update_time c.profile.update_time
              then c.profile
              else p)
    go true b = refl
    go false true = refl
    go false false = refl

-- AwayMessage: what counts is an instance that is away.
abbrev pub away_code : Option Client → Bool
away_code none = false
away_code (some c) = away c

abbrev pub since : Option Client → ℕ
since none = 0
since (some c) = c.away_time

-- The search holds nothing, or an instance that is away.
abbrev AwayOrNone : Option Client → Type 0
AwayOrNone none = Unit {0}
AwayOrNone (some c) = away c ≡ true

away_next : Client → Option Client → Option Client
away_next c o =
    if not (away c)
    then o
    else elim o [ none ↦ some c | some l ↦ if ltb l.away_time c.away_time then some c else some l ]

away_next-newer :
    (c : Client) (o : Option Client)
    → AwayOrNone o
    → away_next c o ≡ newer away_code since o (some c)
unfolding away_next
away_next-newer c none h = go (away c)
  where
    go :
        (b : Bool)
        → (let o : Option Client = if not b then none else some c in o)
          ≡ (if not b then none else if true || ltb 0 c.away_time then some c else none)
    go true = refl
    go false = refl
away_next-newer c (some l) h =
    ap
      (λ b.
        if not (away c)
        then some l
        else if not b || ltb l.away_time c.away_time
        then some c
        else some l)
      (sym h)

away_next-AwayOrNone : (c : Client) (o : Option Client) → AwayOrNone o → AwayOrNone (away_next c o)
unfolding away_next
away_next-AwayOrNone c o h = elim (Bool-cases (away c)) [
  | inr f ↦ rw f h
  | inl t ↦ rw t (found o h t)
]
  where
    found :
        (o : Option Client)
        → AwayOrNone o
        → away c ≡ true
        → AwayOrNone (elim o [
          | none ↦ some c
          | some l ↦ if ltb l.away_time c.away_time then some c else some l
        ])
    found none h t = t
    found (some l) h t = elim (Bool-cases (ltb l.away_time c.away_time)) [
      | inl n ↦ rw n t
      | inr n ↦ rw n h
    ]

pub latest_away-newest :
    (cs : List Client) (o : Option Client)
    → AwayOrNone o
    → latest_away cs o ≡ newest away_code since (map some cs) o
unfolding latest_away away_next
latest_away-newest [] o h = refl
latest_away-newest (c ∷ cs) o h =
    latest_away-newest cs (away_next c o) (away_next-AwayOrNone c o h)
    ∙ ap (newest away_code since (map some cs)) (away_next-newer c o h)

-- IdleTime, when every instance is idle: what counts is a time that is not zero.
abbrev pub time_ok : ℕ → Bool
time_ok t = not (t == 0)

time-newer : (t x : ℕ) → (if (t == 0) || ltb t x then x else t) ≡ newer time_ok (λ a. a) t x
time-newer t x = ground arith

pub recent_idle_time-newest :
    (cs : List Client) (t : ℕ)
    → every_idle cs ≡ true
    → recent_idle_time cs t ≡ newest time_ok (λ a. a) (map (λ c. c.idle_time) cs) t
unfolding every_idle recent_idle_time
recent_idle_time-newest [] t h = refl
recent_idle_time-newest (c ∷ cs) t h =
    let (i, rest) = idle_both c.idle (every_idle cs) h in
    ap (λ b. recent_idle_time cs (if (t == 0) || (b && ltb t c.idle_time) then c.idle_time else t))
      i
    ∙ ap (recent_idle_time cs) (time-newer t c.idle_time)
    ∙ recent_idle_time-newest cs (newer time_ok (λ a. a) t c.idle_time) rest
  where
    idle_both : (a b : Bool) → (if not a then false else b) ≡ true → (a ≡ true) × (b ≡ true)
    idle_both true b h = (refl, h)
    idle_both false b h = absurd (ground (arith, h))
