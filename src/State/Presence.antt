-- ===== src/State/Presence.antt =====
-- state/session.go: what the instances of a session say of their user - away, idle, invisible, profile -
-- and what the session makes of it. A time is a number, 0 the zero time. The instances are a list, in
-- the order in which the code goes through them.
pub mod Newest
pub mod Capabilities
pub mod Tests
use bencoscar.Prelude.{
  ℕ, ◌-◌, List, [], ◌∷◌, Option, none, some, Bool, true, false, not, ◌&&◌, ◌||◌, ◌==◌, ltb,
  bytes_eq, if◌then◌else◌,
}
use Prim.Native.Nat.{bit_and, bit_or}
use bencoscar.State.NotifyTxn.{is_named, put_names}

-- UserProfile of state/user.go
pub record UserProfile : Type 0 where
  pub profile_text : List ℕ
  pub mime_type : List ℕ
  pub update_time : ℕ

-- The fields of SessionInstance that say what the user does.
pub record Client : Type 0 where
  pub user_info_bitmask : ℕ
  pub user_status_bitmask : ℕ
  pub idle : Bool
  pub idle_time : ℕ
  pub away_msg : List ℕ
  pub away_time : ℕ
  pub profile : UserProfile
  pub capabilities : List (List ℕ)

unfoldable pub is_zero_profile : UserProfile → Bool
is_zero_profile p = p.update_time == 0

unfoldable pub is_empty_profile : UserProfile → Bool
unfolding is_zero_profile
is_empty_profile p =
    is_zero_profile p || bytes_eq p.profile_text [] || bytes_eq p.profile_text (0 ∷ [])

abbrev pub no_profile : UserProfile
no_profile = record { profile_text = []; mime_type = []; update_time = 0 }

abbrev pub flag_unavailable : ℕ
flag_unavailable = 0x20

abbrev pub status_away : ℕ
status_away = 1

abbrev pub status_invisible : ℕ
status_invisible = 0x100

-- away of SessionInstance
unfoldable pub away : Client → Bool
away c =
    not (bit_and c.user_info_bitmask flag_unavailable == 0)
    || not (bit_and c.user_status_bitmask status_away == 0)

-- Invisible of SessionInstance
unfoldable pub invisible : Client → Bool
invisible c = bit_and c.user_status_bitmask status_invisible == status_invisible

-- SetUserInfoFlag
unfoldable pub set_user_info_flag : ℕ → ℕ → Client → Client
set_user_info_flag now flag c = record c {
  away_time = if flag == flag_unavailable then now else c.away_time;
  user_info_bitmask = bit_or c.user_info_bitmask flag;
}

-- ClearUserInfoFlag, with the flags that it returns
unfoldable pub clear_user_info_flag : ℕ → Client → ℕ × Client
clear_user_info_flag flag c =
    let flags = c.user_info_bitmask - bit_and c.user_info_bitmask flag in
    (flags, record c { user_info_bitmask = flags })

-- SetUserStatusBitmask
unfoldable pub set_user_status_bitmask : ℕ → ℕ → Client → Client
unfolding away
set_user_status_bitmask now bitmask c = record c {
  away_time =
      if bit_and bitmask status_away == status_away
      then if not (away c) then now else c.away_time
      else c.away_time;
  user_status_bitmask = bitmask;
}

-- SetIdle and UnsetIdle
unfoldable pub set_idle : ℕ → ℕ → Client → Client
set_idle now dur c = record c { idle = true; idle_time = now - dur }

unfoldable pub unset_idle : Client → Client
unset_idle c = record c { idle = false }

-- Away of Session
unfoldable pub every_away : List Client → Bool
every_away [] = true
every_away (c ∷ cs) =
    if (bit_and c.user_info_bitmask flag_unavailable == 0)
      && (bit_and c.user_status_bitmask status_away == 0)
    then false
    else every_away cs

unfoldable pub session_away : List Client → Bool
unfolding every_away
session_away [] = false
session_away (c ∷ cs) = every_away (c ∷ cs)

-- AwayMessage of Session
unfoldable pub latest_away : List Client → Option Client → Option Client
unfolding away
latest_away [] latest = latest
latest_away (c ∷ cs) latest = latest_away cs (
    if not (away c) then latest else elim latest [
      | none ↦ some c
      | some l ↦ if ltb l.away_time c.away_time then some c else some l
    ])

unfoldable pub session_away_message : List Client → List ℕ
unfolding latest_away
session_away_message cs = elim (latest_away cs none) [ none ↦ [] | some l ↦ l.away_msg ]

-- Idle of Session
unfoldable pub every_idle : List Client → Bool
every_idle [] = true
every_idle (c ∷ cs) = if not c.idle then false else every_idle cs

unfoldable pub session_idle : List Client → Bool
unfolding every_idle
session_idle [] = false
session_idle (c ∷ cs) = every_idle (c ∷ cs)

-- mostRecentIdleTime and IdleTime of Session
unfoldable pub recent_idle_time : List Client → ℕ → ℕ
recent_idle_time [] recent = recent
recent_idle_time (c ∷ cs) recent =
    recent_idle_time cs
      (if (recent == 0) || (c.idle && ltb recent c.idle_time) then c.idle_time else recent)

unfoldable pub session_idle_time : List Client → ℕ
unfolding session_idle recent_idle_time
session_idle_time cs = if not (session_idle cs) then 0 else recent_idle_time cs 0

-- Invisible of Session
unfoldable pub session_invisible : List Client → Bool
unfolding invisible
session_invisible [] = true
session_invisible (c ∷ cs) = if not (invisible c) then false else session_invisible cs

-- AllUserInfoBitmask and AllUserStatusBitmask
unfoldable pub all_user_info_bitmask : ℕ → List Client → Bool
all_user_info_bitmask flag [] = true
all_user_info_bitmask flag (c ∷ cs) =
    if not (bit_and c.user_info_bitmask flag == flag) then false else all_user_info_bitmask flag cs

unfoldable pub all_user_status_bitmask : ℕ → List Client → Bool
all_user_status_bitmask flag [] = true
all_user_status_bitmask flag (c ∷ cs) =
    if not (bit_and c.user_status_bitmask flag == flag)
    then false
    else all_user_status_bitmask flag cs

-- Profile of Session
unfoldable pub latest_profile : List Client → UserProfile → UserProfile
unfolding is_empty_profile
latest_profile [] latest = latest
latest_profile (c ∷ cs) latest = latest_profile cs (
    if is_empty_profile c.profile
    then latest
    else if is_empty_profile latest || ltb latest.update_time c.profile.update_time
    then c.profile
    else latest)

unfoldable pub session_profile : List Client → UserProfile
unfolding latest_profile
session_profile cs = latest_profile cs no_profile

-- The comparison of Caps: the first byte in which two UUIDs differ decides.
unfoldable pub cap_before : List ℕ → List ℕ → Bool
cap_before [] [] = false
cap_before [] (b ∷ y) = true
cap_before (a ∷ x) [] = false
cap_before (a ∷ x) (b ∷ y) = let rest = cap_before x y in if not (a == b) then ltb a b else rest

unfoldable pub insert_cap : List ℕ → List (List ℕ) → List (List ℕ)
unfolding cap_before
insert_cap c [] = c ∷ []
insert_cap c (d ∷ ds) =
    let rest = insert_cap c ds in if cap_before c d then c ∷ d ∷ ds else d ∷ rest

unfoldable pub sort_caps : List (List ℕ) → List (List ℕ)
unfolding insert_cap
sort_caps [] = []
sort_caps (c ∷ cs) = insert_cap c (sort_caps cs)

-- Caps and HasCap of Session
unfoldable pub union_caps : List Client → List (List ℕ) → List (List ℕ)
unfolding put_names
union_caps [] caps = caps
union_caps (c ∷ cs) caps = union_caps cs (put_names c.capabilities caps)

unfoldable pub session_caps : List Client → List (List ℕ)
unfolding union_caps sort_caps
session_caps cs = sort_caps (union_caps cs [])

unfoldable pub has_cap : List ℕ → List Client → Bool
unfolding session_caps
has_cap cap cs = is_named cap (session_caps cs)

-- The flags and the status in userInfo.
unfoldable pub user_flags : List Client → ℕ
unfolding session_away
user_flags cs =
    let base : ℕ = elim cs [ [] ↦ 0 | c ∷ rest ↦ c.user_info_bitmask ] in
    if session_away cs then bit_or base flag_unavailable else base - bit_and base flag_unavailable

unfoldable pub common_status : List Client → ℕ → ℕ
common_status [] bitmask = bitmask
common_status (c ∷ cs) bitmask = common_status cs (bit_and bitmask c.user_status_bitmask)

unfoldable pub status_bitmask : List Client → ℕ
unfolding common_status
status_bitmask [] = 0
status_bitmask (c ∷ cs) = common_status (c ∷ cs) c.user_status_bitmask
