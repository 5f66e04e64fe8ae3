-- ===== src/State/ScreenNames/Tests.antt =====
-- Screen names at concrete strings.
use bencoscar.Prelude.{[], ◌∷◌, ◌≡◌, refl, none, some, codes}
use bencoscar.State.ScreenNames.Normal.{IsIdentifier, validate_aim_handle-IsIdentifier}
use bencoscar.State.ScreenNames.{
  new_ident_screen_name, validate_aim_handle, validate_uin, aim_handle_length,
  aim_handle_invalid_format, icq_uin_invalid_format,
}

-- A name of Greek letters, of two bytes each.
greek_example : validate_aim_handle (0x3a3 ∷ 0x3ac ∷ 0x394 ∷ []) ≡ none
unfolding validate_aim_handle
greek_example = refl

greek_normal_example :
    new_ident_screen_name (0x3a3 ∷ 0x3ac ∷ 0x394 ∷ []) ≡ 0x3c3 ∷ 0x3ac ∷ 0x3b4 ∷ []
unfolding new_ident_screen_name
greek_normal_example = refl

normal_example : new_ident_screen_name (codes "Chatting Chuck") ≡ codes "chattingchuck"
unfolding new_ident_screen_name
normal_example = refl

short_example : validate_aim_handle (codes "a b") ≡ some aim_handle_length
unfolding validate_aim_handle
short_example = refl

format_example : validate_aim_handle (codes "1abc") ≡ some aim_handle_invalid_format
unfolding validate_aim_handle
format_example = refl

uin_example : validate_uin (codes "10000") ≡ none
unfolding validate_uin
uin_example = refl

big_uin_example : validate_uin (codes "2147483647") ≡ some icq_uin_invalid_format
unfolding validate_uin
big_uin_example = refl

validate_aim_handle-IsIdentifier_example :
    IsIdentifier (new_ident_screen_name (codes "Chatting Chuck"))
unfolding validate_aim_handle
validate_aim_handle-IsIdentifier_example =
    validate_aim_handle-IsIdentifier (codes "Chatting Chuck") refl
