-- ===== src/Invites/Tests.antt =====
-- One invite, redeemed and tried again.
use arc_relay.Prelude.{◌≤◌, ◌≡◌, refl, String, List, [], ◌∷◌, none}
use arc_relay.Invites.{
  InviteToken, pending, validate_and_consume, create_account_invite, update_where,
  set_redeemed_user,
}
use arc_relay.Invites.Redeem.{
  Op, invited, redeemed, recorded, cleaned, redemptions, creations, redemptions_limit, step,
}

abbrev identity : String → String
identity s = s

abbrev operations : List Op
operations =
    invited "t" "i" "user" "" none "admin" 1000
    ∷ redeemed 500 "t"
    ∷ recorded "i" "u"
    ∷ redeemed 600 "t"
    ∷ cleaned 2000
    ∷ []

redeemed_once : redemptions identity "t" operations [] ≡ 1
unfolding redemptions validate_and_consume step create_account_invite update_where set_redeemed_user
redeemed_once = refl

redemptions_limit_example :
    redemptions identity "t" operations [] ≤ creations identity "t" operations
redemptions_limit_example = redemptions_limit identity "t" operations

abbrev invite : InviteToken
invite = record {
  id = "i";
  token_hash = "t";
  role = "user";
  access_level = "write";
  profile_id = none;
  created_by = "admin";
  expires_at = 1000;
  used_at = none;
  redeemed_user_id = none;
  status = pending;
}
