-- ===== src/Base/Bytes/Examples.antt =====
-- Runs of the functions on texts.
use relvo.Base.{is_blank, ◌≡◌, refl, true, bytes, replace_all, decimal}

blank_test : is_blank (bytes " \t") ≡ true
unfolding is_blank
blank_test = refl

replace_test : replace_all (bytes "abcabx") (bytes "ab") (bytes "-") ≡ bytes "-c-x"
unfolding replace_all
replace_test = refl

decimal_test : decimal 1050 ≡ bytes "1050"
unfolding decimal
decimal_test = refl
