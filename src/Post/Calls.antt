-- ===== src/Post/Calls.antt =====
-- All requests together, with the user and the token that reach the server.
use Prim.Native.String.{String}
use package.text.Mathlib.Text.{◌==◌}
use package.text.Mathlib.TextEquality.{eq_iff}
use vncc.Base.{
  ℕ, ◌≡◌, refl, sym, ap, ap₂, subst, ◌∙◌, Bool, true, false, inl, inr, Bool-cases, if◌then◌else◌,
  if_false, List, [], ◌∷◌, Option, none, some, arith,
}
use vncc.Instructions.{ℤ}
use vncc.Post.{Value, number, letters, Body, Request}
use vncc.Post.Content.{
  Edition, ecalc, mainland, kaopu, multidesk, assign, assign_all, environment, complete,
}
use vncc.Post.Account.{
  AccountCall, login, rh_login, mobile_verify_login, mobile_login, user_phones, user_phone,
  all_groups, deveice_groups, op_group, get_user_device, account_request, account_user,
}
use vncc.Post.Command.{
  CommandCall, command_reboot, command_recove_factory, enable_new_device_info, enable_device_values,
  connect_phone, get_new_phone_scheme, command_request, command_user,
}
use vncc.Post.Library.{
  LibraryCall, get_device_library, random_device_library, set_function, move_deveice_to_group,
  sys_init, library_request, library_user,
}
use vncc.Post.Files.{
  FileCall, user_files, inatall_app, root_device, get_email_code, register_email, register_by_phone,
  forgot_pass, mobile_pwd_rst, get_apps, upload_file_sucess, file_request, file_user,
}
use vncc.Post.Patches.{
  PatchCall, get_app_version, update_user_info, app_data_collect, log_collect, config_data, patch,
  check_valid_patch, check_patch, delete_cloud_file, pn_code, change_break_device, patch_request,
  patch_user,
}
use vncc.Post.Other.{
  OtherCall, batch_rename, country_cellular, generate_qr, query_qr, msg_center, get_device_token,
  refresh_device_token, other_request, other_user,
}

pub data Call (Real J : Type 0) : Type 0 where
  account_call : AccountCall Real J → Call Real J
  command_call : CommandCall Real J → Call Real J
  library_call : LibraryCall Real J → Call Real J
  file_call : FileCall Real J → Call Real J
  patch_call : PatchCall Real J → Call Real J
  other_call : OtherCall Real J → Call Real J

-- The first member of a name.
abbrev pub lookup {ℓ} : {A : Type ℓ} → String → List (String × A) → Option A
lookup name [] = none
lookup name ((n, v) ∷ rest) = let later = lookup name rest in if n == name then some v else later

abbrev user_of :
    {Real J : Type 0} → Option (Value Real J) → Option (Value Real J) → Option (ℤ × String)
user_of (some (number user)) (some (letters token)) = some (user, token)
user_of _ _ = none

-- The user and the token, if both are members of the object.
abbrev pub user_in : {Real J : Type 0} → Body Real J → Option (ℤ × String)
user_in body = user_of (lookup "UserID" body) (lookup "AccessToken" body)

abbrev not_named {ℓ} : {A : Type ℓ} → String → List (String × A) → Bool
not_named name [] = true
not_named name ((n, v) ∷ rest) =
    let later = not_named name rest in if n == name then false else later

lookup-assign {ℓ} :
    {A : Type ℓ} (name m : String) (v : A) (body : List (String × A))
    → (m == name) ≡ false
    → lookup name (assign m v body) ≡ lookup name body
lookup-assign name m v [] e = if_false (m == name) _ _ e
lookup-assign name m v ((n, w) ∷ rest) e = elim (Bool-cases (n == m)) [
  | inl same ↦
      let other = subst (λ a. (a == name) ≡ false) (sym ((eq_iff n m).0 same)) e in
      rw same (if_false (n == name) _ _ other ∙ sym (if_false (n == name) _ _ other))
  | inr differ ↦
      rw differ (ap (λ o. if n == name then some w else o) (lookup-assign name m v rest e))
]

lookup-assign_all {ℓ} :
    {A : Type ℓ} (name : String) (set body : List (String × A))
    → not_named name set ≡ true
    → lookup name (assign_all set body) ≡ lookup name body
lookup-assign_all name [] body h = refl
lookup-assign_all name ((n, v) ∷ rest) body h = elim (Bool-cases (n == name)) [
  | inl same ↦ absurd (ground (arith, h, same))
  | inr differ ↦
      lookup-assign_all name rest (assign n v body) (sym (if_false (n == name) _ _ differ) ∙ h)
      ∙ lookup-assign name n v body differ
]

module _ {Real J : Type 0} where
  -- What `BuildPostContent` sets leaves the user and the token alone.
  user_in-complete : (e : Edition) (body : Body Real J) → user_in (complete e body) ≡ user_in body
  unfolding complete
  user_in-complete ecalc body =
      ap₂ user_of (lookup-assign_all "UserID" (environment ecalc) body refl)
        (lookup-assign_all "AccessToken" (environment ecalc) body refl)
  user_in-complete mainland body =
      ap₂ user_of (lookup-assign_all "UserID" (environment mainland) body refl)
        (lookup-assign_all "AccessToken" (environment mainland) body refl)
  user_in-complete kaopu body =
      ap₂ user_of (lookup-assign_all "UserID" (environment kaopu) body refl)
        (lookup-assign_all "AccessToken" (environment kaopu) body refl)
  user_in-complete multidesk body =
      ap₂ user_of (lookup-assign_all "UserID" (environment multidesk) body refl)
        (lookup-assign_all "AccessToken" (environment multidesk) body refl)

  account-user :
      (desk : Bool) (c : AccountCall Real J)
      → user_in (account_request desk c).body ≡ account_user c
  unfolding account_request
  account-user desk (login _ _ _ _ _ _ _) = refl
  account-user desk (rh_login _ _) = refl
  account-user desk (mobile_verify_login _ _) = refl
  account-user desk (mobile_login _ _) = refl
  account-user desk (user_phones _ _ _ _) = refl
  account-user desk (user_phone _ _ _ _) = refl
  account-user desk (all_groups _ _) = refl
  account-user desk (deveice_groups _ _ _ _ _) = refl
  account-user desk (op_group _ _ _ _ _) = refl
  account-user desk (get_user_device _ _ _ _) = refl

  command-user :
      (show : ℤ → String) (c : CommandCall Real J)
      → user_in (command_request show c).body ≡ command_user c
  unfolding command_request
  command-user show (command_reboot _ _ _ _ _ _ _ _ _) = refl
  command-user show (command_recove_factory _ _ _ _ _) = refl
  command-user show (enable_new_device_info _ _ _) = refl
  command-user show (enable_device_values _ _ _ _ _ _ _ _ _ _) = refl
  command-user show (connect_phone _ _ _) = refl
  command-user show (get_new_phone_scheme _ _ _ _ _) = refl

  library-user : (c : LibraryCall Real J) → user_in (library_request c).body ≡ library_user c
  unfolding library_request
  library-user (get_device_library _ _) = refl
  library-user (random_device_library _ _ _ _) = refl
  library-user (set_function _ _ _ _ _ _ _) = refl
  library-user (move_deveice_to_group _ _ _ _ _ _) = refl
  library-user sys_init = refl

  file-user : (c : FileCall Real J) → user_in (file_request c).body ≡ file_user c
  unfolding file_request
  file-user (user_files _ _ _ _ _ _) = refl
  file-user (inatall_app _ _ _ _ _) = refl
  file-user (root_device _ _ _ _ _) = refl
  file-user (get_email_code _ _) = refl
  file-user (register_email _ _ _) = refl
  file-user (register_by_phone _ _ _) = refl
  file-user (forgot_pass _ _ _) = refl
  file-user (mobile_pwd_rst _ _ _) = refl
  file-user (get_apps _ _ _ _) = refl
  file-user (upload_file_sucess _ _ _ _ _ _ _ _ _ _ _ _ _) = refl

  patch-user : (c : PatchCall Real J) → user_in (patch_request c).body ≡ patch_user c
  unfolding patch_request
  patch-user get_app_version = refl
  patch-user (update_user_info _ _ _) = refl
  patch-user (app_data_collect _ _ _ _) = refl
  patch-user (log_collect _ _ _ _) = refl
  patch-user config_data = refl
  patch-user (patch _ _ _ _ _) = refl
  patch-user (check_valid_patch _ _ _) = refl
  patch-user (check_patch _ _ _) = refl
  patch-user (delete_cloud_file _ _ _) = refl
  patch-user (pn_code _ _ _) = refl
  patch-user (change_break_device _ _ _ _) = refl

  other-user :
      (sn : String) (utf8 : List ℕ → String) (c : OtherCall Real J)
      → user_in (other_request sn utf8 c).body ≡ other_user c
  unfolding other_request
  other-user sn utf8 (batch_rename _ _ _ _) = refl
  other-user sn utf8 (country_cellular _ _) = refl
  other-user sn utf8 generate_qr = refl
  other-user sn utf8 (query_qr _) = refl
  other-user sn utf8 (msg_center _ _ _ _) = refl
  other-user sn utf8 (get_device_token _ _ _) = refl
  other-user sn utf8 (refresh_device_token _ _ _) = refl

abbrev pub call_user : {Real J : Type 0} → Call Real J → Option (ℤ × String)
call_user (account_call c) = account_user c
call_user (command_call c) = command_user c
call_user (library_call c) = library_user c
call_user (file_call c) = file_user c
call_user (patch_call c) = patch_user c
call_user (other_call c) = other_user c

-- The ways that the requests depend on: the edition with many desks, the serial number, and how
-- numbers and wide texts are printed.
module _ {Real J : Type 0} (desk : Bool) (show : ℤ → String) (sn : String)
    (utf8 : List ℕ → String) where
  unfoldable pub request : Call Real J → Request Real J
  request (account_call c) = account_request desk c
  request (command_call c) = command_request show c
  request (library_call c) = library_request c
  request (file_call c) = file_request c
  request (patch_call c) = patch_request c
  request (other_call c) = other_request sn utf8 c

  call-user : (c : Call Real J) → user_in (request c).body ≡ call_user c
  unfolding request
  call-user (account_call c) = account-user desk c
  call-user (command_call c) = command-user show c
  call-user (library_call c) = library-user c
  call-user (file_call c) = file-user c
  call-user (patch_call c) = patch-user c
  call-user (other_call c) = other-user sn utf8 c

  -- In every edition and for every method, the object that is posted has both "UserID" and
  -- "AccessToken" exactly if `call_user` says so, and then they are the method's. `Login` posts the
  -- token alone.
  pub user_in-request :
      (e : Edition) (c : Call Real J) → user_in (complete e (request c).body) ≡ call_user c
  user_in-request e c = user_in-complete e (request c).body ∙ call-user c

  -- Whatever serial number `GenerateQr` asks a code for, the object that is posted has "WIN" as its
  -- "DeviceCode".
  pub generate_qr-device :
      (e : Edition)
      → lookup "DeviceCode" (complete e (request (other_call generate_qr)).body)
        ≡ some (letters "WIN")
  unfolding complete request other_request
  generate_qr-device ecalc = refl
  generate_qr-device mainland = refl
  generate_qr-device kaopu = refl
  generate_qr-device multidesk = refl
