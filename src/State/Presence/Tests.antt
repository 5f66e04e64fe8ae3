-- ===== src/State/Presence/Tests.antt =====
-- Two instances: one idle since 5 and away since 7, one idle since 9 with a profile.
use bencoscar.Prelude.{
  ◌≤◌, length, All, ◌≡◌, refl, List, [], ◌∷◌, map, none, some, true, false, ◌⊎◌,
}
use bencoscar.State.Presence.{
  session_caps, union_caps, sort_caps, insert_cap, cap_before, has_cap, Client, no_profile, away,
  invisible, set_user_info_flag, clear_user_info_flag, set_user_status_bitmask, set_idle,
  unset_idle, every_away, session_away, latest_away, session_away_message, every_idle, session_idle,
  recent_idle_time, session_idle_time, session_invisible, all_user_info_bitmask,
  all_user_status_bitmask, session_profile, user_flags, common_status, status_bitmask,
  flag_unavailable,
}
use bencoscar.State.NotifyTxn.{is_named, put_name, put_names}
use bencoscar.State.Presence.Capabilities.{IsOrdered, is_offered, session_caps-IsOrdered}
use bencoscar.State.Presence.Newest.{
  IsNewest, HasBusy, IsIdle, profile_ok, away_ok, since, time_ok, message_of,
  session_idle_time-IsNewest,
}

abbrev blank : Client
blank = record {
  user_info_bitmask = 0x10;
  user_status_bitmask = 0;
  idle = false;
  idle_time = 0;
  away_msg = [];
  away_time = 0;
  profile = no_profile;
  capabilities = [];
}

abbrev first : Client
first = record (set_user_info_flag 7 flag_unavailable (set_idle 5 0 blank)) { away_msg = 66 ∷ [] }

abbrev second : Client
second = record (set_idle 10 1 blank) {
  profile = record { profile_text = 72 ∷ 105 ∷ []; mime_type = []; update_time = 3 };
  capabilities = (9 ∷ 1 ∷ []) ∷ (7 ∷ 2 ∷ []) ∷ [];
}

abbrev both_clients : List Client
both_clients = first ∷ second ∷ []

abbrev both_away : List Client
unfolding set_user_status_bitmask
both_away = map (set_user_status_bitmask 11 0x101) both_clients

aggregates :
    (session_away both_clients ≡ false)
    × (session_away_message both_clients ≡ 66 ∷ [])
    × (session_idle_time both_clients ≡ 9)
unfolding set_user_info_flag set_idle session_away every_away session_away_message latest_away away
    session_idle_time session_idle every_idle recent_idle_time
aggregates = (refl, refl, refl)

-- The flag of the first instance goes when the other is not away; both are away by their status.
flags :
    (user_flags both_clients ≡ 0x10)
    × (user_flags both_away ≡ 0x30)
    × (status_bitmask both_away ≡ 0x101)
    × (session_invisible both_away ≡ true)
unfolding set_user_info_flag set_user_status_bitmask set_idle session_away every_away user_flags
    status_bitmask common_status session_invisible invisible
flags = (refl, refl, refl, refl)

cleared :
    ((clear_user_info_flag flag_unavailable first).0 ≡ 0x10)
    × (session_idle (first ∷ unset_idle second ∷ []) ≡ false)
    × (all_user_info_bitmask 0x10 both_clients ≡ true)
    × (all_user_status_bitmask 1 both_clients ≡ false)
unfolding set_user_info_flag set_idle clear_user_info_flag unset_idle session_idle every_idle
    all_user_info_bitmask all_user_status_bitmask
cleared = (refl, refl, refl, refl)

session_idle_time-IsNewest_example :
    IsNewest profile_ok
      (λ p. p.update_time)
      no_profile
      (map (λ c. c.profile) both_clients)
      (session_profile both_clients)
    × (session_away_message both_clients ≡ message_of (latest_away both_clients none))
    × IsNewest away_ok since none (map some both_clients) (latest_away both_clients none)
    × ((((both_clients ≡ []) ⊎ HasBusy both_clients)
          × (session_idle both_clients ≡ false)
          × (session_idle_time both_clients ≡ 0))
        ⊎ ((1 ≤ length both_clients)
            × All IsIdle both_clients
            × (session_idle both_clients ≡ true)
            × IsNewest time_ok
                (λ t. t)
                0
                (map (λ c. c.idle_time) both_clients)
                (session_idle_time both_clients)))
session_idle_time-IsNewest_example = session_idle_time-IsNewest both_clients

sorted_caps : session_caps both_clients ≡ (7 ∷ 2 ∷ []) ∷ (9 ∷ 1 ∷ []) ∷ []
unfolding set_user_info_flag set_idle session_caps union_caps put_names put_name sort_caps
    insert_cap cap_before
sorted_caps = refl

session_caps-IsOrdered_example :
    IsOrdered (session_caps both_clients)
    × (is_named (7 ∷ 2 ∷ []) (session_caps both_clients) ≡ is_offered (7 ∷ 2 ∷ []) both_clients)
    × (has_cap (7 ∷ 2 ∷ []) both_clients ≡ is_offered (7 ∷ 2 ∷ []) both_clients)
session_caps-IsOrdered_example = session_caps-IsOrdered (7 ∷ 2 ∷ []) both_clients
