-- ===== src/Wire/RateLimit/Limits.antt =====
-- wire/rate_limit.go: DefaultSNACRateLimits, the rate class of each SNAC, one list for each food
-- group: the subgroups, by their values in wire/snacs.go, with the IDs of their classes.
use bencoscar.Prelude.{ℕ, List, [], ◌∷◌}

unfoldable pub o_service_limits : List (ℕ × ℕ)
o_service_limits =
    (0x01, 1)
    ∷ (0x02, 1)
    ∷ (0x03, 1)
    ∷ (0x04, 1)
    ∷ (0x05, 1)
    ∷ (0x06, 1)
    ∷ (0x07, 1)
    ∷ (0x08, 1)
    ∷ (0x09, 1)
    ∷ (0x0a, 1)
    ∷ (0x0b, 1)
    ∷ (0x0c, 1)
    ∷ (0x0d, 1)
    ∷ (0x0e, 1)
    ∷ (0x0f, 1)
    ∷ (0x10, 1)
    ∷ (0x11, 1)
    ∷ (0x12, 1)
    ∷ (0x13, 1)
    ∷ (0x14, 1)
    ∷ (0x15, 1)
    ∷ (0x16, 1)
    ∷ (0x17, 1)
    ∷ (0x18, 1)
    ∷ (0x19, 1)
    ∷ (0x1a, 1)
    ∷ (0x1b, 1)
    ∷ (0x1c, 1)
    ∷ (0x1d, 1)
    ∷ (0x1e, 1)
    ∷ (0x1f, 1)
    ∷ (0x20, 1)
    ∷ (0x21, 1)
    ∷ (0x22, 1)
    ∷ (0x23, 1)
    ∷ []

unfoldable pub locate_limits : List (ℕ × ℕ)
locate_limits =
    (0x01, 1)
    ∷ (0x02, 1)
    ∷ (0x03, 1)
    ∷ (0x04, 1)
    ∷ (0x05, 3)
    ∷ (0x06, 1)
    ∷ (0x07, 1)
    ∷ (0x08, 1)
    ∷ (0x09, 4)
    ∷ (0x0a, 1)
    ∷ (0x0b, 4)
    ∷ (0x0c, 1)
    ∷ (0x0d, 1)
    ∷ (0x0e, 1)
    ∷ (0x0f, 1)
    ∷ (0x10, 1)
    ∷ (0x11, 1)
    ∷ (0x12, 1)
    ∷ (0x13, 1)
    ∷ (0x14, 1)
    ∷ (0x15, 1)
    ∷ []

unfoldable pub buddy_limits : List (ℕ × ℕ)
buddy_limits =
    (0x01, 1)
    ∷ (0x02, 1)
    ∷ (0x03, 1)
    ∷ (0x04, 2)
    ∷ (0x05, 2)
    ∷ (0x06, 1)
    ∷ (0x07, 1)
    ∷ (0x08, 1)
    ∷ (0x09, 1)
    ∷ (0x0a, 1)
    ∷ (0x0b, 1)
    ∷ (0x0c, 1)
    ∷ (0x0f, 1)
    ∷ (0x10, 1)
    ∷ []

unfoldable pub icbm_limits : List (ℕ × ℕ)
icbm_limits =
    (0x01, 1)
    ∷ (0x02, 1)
    ∷ (0x03, 1)
    ∷ (0x04, 1)
    ∷ (0x05, 1)
    ∷ (0x06, 3)
    ∷ (0x07, 1)
    ∷ (0x08, 1)
    ∷ (0x09, 1)
    ∷ (0x0a, 1)
    ∷ (0x0b, 1)
    ∷ (0x0c, 1)
    ∷ (0x0d, 1)
    ∷ (0x0e, 1)
    ∷ (0x0f, 1)
    ∷ (0x10, 1)
    ∷ (0x11, 1)
    ∷ (0x12, 1)
    ∷ (0x13, 1)
    ∷ (0x14, 1)
    ∷ []

unfoldable pub advert_limits : List (ℕ × ℕ)
advert_limits = (0x01, 1) ∷ (0x02, 1) ∷ (0x03, 1) ∷ []

unfoldable pub invite_limits : List (ℕ × ℕ)
invite_limits = (0x01, 1) ∷ (0x02, 1) ∷ (0x03, 1) ∷ []

unfoldable pub admin_limits : List (ℕ × ℕ)
admin_limits =
    (0x01, 1)
    ∷ (0x02, 1)
    ∷ (0x03, 1)
    ∷ (0x04, 1)
    ∷ (0x05, 1)
    ∷ (0x06, 1)
    ∷ (0x07, 1)
    ∷ (0x08, 1)
    ∷ (0x09, 1)
    ∷ []

unfoldable pub popup_limits : List (ℕ × ℕ)
popup_limits = (0x01, 1) ∷ (0x02, 1) ∷ []

unfoldable pub permit_deny_limits : List (ℕ × ℕ)
permit_deny_limits =
    (0x01, 1)
    ∷ (0x02, 1)
    ∷ (0x03, 1)
    ∷ (0x04, 1)
    ∷ (0x05, 2)
    ∷ (0x06, 2)
    ∷ (0x07, 2)
    ∷ (0x08, 2)
    ∷ (0x09, 1)
    ∷ (0x0a, 1)
    ∷ (0x0b, 1)
    ∷ []

unfoldable pub user_lookup_limits : List (ℕ × ℕ)
user_lookup_limits = (0x01, 1) ∷ (0x02, 1) ∷ (0x03, 1) ∷ []

unfoldable pub stats_limits : List (ℕ × ℕ)
stats_limits = (0x01, 1) ∷ (0x02, 1) ∷ (0x03, 1) ∷ (0x04, 1) ∷ []

unfoldable pub translate_limits : List (ℕ × ℕ)
translate_limits = (0x01, 1) ∷ (0x02, 1) ∷ (0x03, 1) ∷ []

unfoldable pub chat_nav_limits : List (ℕ × ℕ)
chat_nav_limits =
    (0x01, 1)
    ∷ (0x02, 1)
    ∷ (0x03, 1)
    ∷ (0x04, 1)
    ∷ (0x05, 1)
    ∷ (0x06, 1)
    ∷ (0x07, 1)
    ∷ (0x08, 1)
    ∷ (0x09, 1)
    ∷ []

unfoldable pub chat_limits : List (ℕ × ℕ)
chat_limits =
    (0x01, 1)
    ∷ (0x02, 1)
    ∷ (0x03, 1)
    ∷ (0x04, 1)
    ∷ (0x05, 2)
    ∷ (0x06, 1)
    ∷ (0x07, 1)
    ∷ (0x08, 1)
    ∷ (0x09, 1)
    ∷ []

unfoldable pub o_dir_limits : List (ℕ × ℕ)
o_dir_limits = (0x01, 1) ∷ (0x02, 1) ∷ (0x03, 1) ∷ (0x04, 1) ∷ []

unfoldable pub bart_limits : List (ℕ × ℕ)
bart_limits = (0x01, 1) ∷ (0x02, 1) ∷ (0x04, 1) ∷ (0x06, 1) ∷ []

unfoldable pub feedbag_limits : List (ℕ × ℕ)
feedbag_limits =
    (0x01, 1)
    ∷ (0x02, 1)
    ∷ (0x03, 1)
    ∷ (0x04, 1)
    ∷ (0x05, 1)
    ∷ (0x06, 1)
    ∷ (0x07, 1)
    ∷ (0x08, 1)
    ∷ (0x09, 1)
    ∷ (0x0a, 1)
    ∷ (0x0b, 1)
    ∷ (0x0c, 1)
    ∷ (0x0d, 1)
    ∷ (0x0e, 1)
    ∷ (0x0f, 1)
    ∷ (0x10, 1)
    ∷ (0x11, 1)
    ∷ (0x12, 1)
    ∷ (0x13, 1)
    ∷ (0x14, 1)
    ∷ (0x15, 1)
    ∷ (0x16, 1)
    ∷ (0x17, 1)
    ∷ (0x18, 1)
    ∷ (0x19, 1)
    ∷ (0x1a, 1)
    ∷ (0x1b, 1)
    ∷ (0x1c, 1)
    ∷ (0x1d, 1)
    ∷ (0x1e, 1)
    ∷ (0x1f, 1)
    ∷ (0x20, 1)
    ∷ (0x21, 1)
    ∷ (0x22, 1)
    ∷ (0x23, 1)
    ∷ (0x24, 1)
    ∷ (0x25, 1)
    ∷ (0x26, 1)
    ∷ (0x27, 1)
    ∷ (0x28, 1)
    ∷ []

unfoldable pub icq_limits : List (ℕ × ℕ)
icq_limits = (0x01, 1) ∷ (0x02, 1) ∷ (0x03, 1) ∷ []

unfoldable pub bucp_limits : List (ℕ × ℕ)
bucp_limits = (0x01, 1) ∷ (0x02, 1) ∷ (0x04, 1) ∷ (0x06, 1) ∷ (0x08, 1) ∷ (0x0a, 1) ∷ (0x0c, 1) ∷ []

unfoldable pub alert_limits : List (ℕ × ℕ)
alert_limits =
    (0x01, 1)
    ∷ (0x02, 1)
    ∷ (0x04, 1)
    ∷ (0x06, 1)
    ∷ (0x07, 1)
    ∷ (0x08, 1)
    ∷ (0x0a, 1)
    ∷ (0x0d, 1)
    ∷ (0x0e, 1)
    ∷ (0x0f, 1)
    ∷ (0x10, 1)
    ∷ (0x11, 1)
    ∷ (0x12, 1)
    ∷ (0x15, 1)
    ∷ (0x16, 1)
    ∷ (0x17, 1)
    ∷ []

-- The food groups with their subgroups. In a Go map the order means nothing.
unfoldable pub default_snac_rate_limits : List (ℕ × List (ℕ × ℕ))
default_snac_rate_limits =
    (0x01, o_service_limits)
    ∷ (0x02, locate_limits)
    ∷ (0x03, buddy_limits)
    ∷ (0x04, icbm_limits)
    ∷ (0x05, advert_limits)
    ∷ (0x06, invite_limits)
    ∷ (0x07, admin_limits)
    ∷ (0x08, popup_limits)
    ∷ (0x09, permit_deny_limits)
    ∷ (0x0a, user_lookup_limits)
    ∷ (0x0b, stats_limits)
    ∷ (0x0c, translate_limits)
    ∷ (0x0d, chat_nav_limits)
    ∷ (0x0e, chat_limits)
    ∷ (0x0f, o_dir_limits)
    ∷ (0x10, bart_limits)
    ∷ (0x13, feedbag_limits)
    ∷ (0x15, icq_limits)
    ∷ (0x17, bucp_limits)
    ∷ (0x18, alert_limits)
    ∷ []
