-- ===== src/Instructions/Structs.antt =====
-- The structs of the program, and the three of them that are also written.
use Prim.Native.String.{String}
use mathlib.Core.Bool.{and-eq-true_iff}
use mathlib.Core.List.{Memᴰ}
use vncc.Base.{◌≡◌, refl, Bool, true, ◌&&◌, List, [], ◌∷◌, ◌↔◌, subst, sym}
use vncc.Instructions.{ℤ, Struct, of_struct, Vals, JsonLib, from_json, to_json}
use vncc.Instructions.Laws.{JsonLaws}
use vncc.Instructions.Members.{well_read}
use vncc.Instructions.Explicit.{deep, unread, IsRead, from_json-IsRead}
use vncc.Instructions.Round.{Fits, written_whole, from_json-to_json}
use vncc.Instructions.Tables.Account.{
  web_response_pack_base, user_data, login_data, pages, codetoken, qrdata, msginfo, msgdata,
  deviceauthtoken, mobiledevicetoken, mobiledevicetokens, websocketinfo, player_cmd, navite_jsparam,
  open_browser_jsparam, wsdata, host_domain, uploadfilesucc, getappversion,
}
use vncc.Instructions.Tables.Device.{
  mobiledevice, usermobiledevice, userphones, connect_info, group_info, groupino_agg_data,
  group_datas, rhloginret, screencap, base_proto,
}
use vncc.Instructions.Tables.Model.{
  phone_param, device_library, device_libs, phone_param_info, history_sln, history_sln_page,
  network, isp, country_cellular, country_cellular_array,
}
use vncc.Instructions.Tables.Config.{
  model_info, app_open_page_url, switch_config, param_config, bitrate, resolution_sln, sysinit_info,
  bitrate_item, bitrate_root, resolution, multi_mode_item, lang, multi_mode, framerate,
}
use vncc.Instructions.Tables.Files.{
  signfilepath, signfilepaths, fileinfo, userfiles, appinfo, apps, areaserverinfo, marketappinfo,
  marketapp, error_patch, patch_task_guid, patch_result_item, patch_result_array,
  areaserverinfo_writes,
}
use vncc.Instructions.Tables.Net.{
  type_defaultset, type_specialset, defaultset, vpnclassify, uservpn, uservpnlist, deviceordervpn,
  setvpn, uservpn_writes, deviceordervpn_writes,
}

abbrev pub structs : List Struct
structs =
    web_response_pack_base ∷ user_data ∷ login_data ∷ pages ∷ codetoken ∷ qrdata ∷ msginfo ∷ msgdata
    ∷ deviceauthtoken ∷ mobiledevicetoken ∷ mobiledevicetokens ∷ websocketinfo ∷ player_cmd
    ∷ navite_jsparam ∷ open_browser_jsparam ∷ wsdata ∷ host_domain ∷ uploadfilesucc ∷ getappversion
    ∷ mobiledevice ∷ usermobiledevice ∷ userphones ∷ connect_info ∷ group_info ∷ groupino_agg_data
    ∷ group_datas ∷ rhloginret ∷ screencap ∷ base_proto ∷ phone_param ∷ device_library ∷ device_libs
    ∷ phone_param_info ∷ history_sln ∷ history_sln_page ∷ network ∷ isp ∷ country_cellular
    ∷ country_cellular_array ∷ model_info ∷ app_open_page_url ∷ switch_config ∷ param_config
    ∷ bitrate ∷ resolution_sln ∷ sysinit_info ∷ bitrate_item ∷ bitrate_root ∷ resolution
    ∷ multi_mode_item ∷ lang ∷ multi_mode ∷ framerate ∷ signfilepath ∷ signfilepaths ∷ fileinfo
    ∷ userfiles ∷ appinfo ∷ apps ∷ areaserverinfo ∷ marketappinfo ∷ marketapp ∷ error_patch
    ∷ patch_task_guid ∷ patch_result_item ∷ patch_result_array ∷ type_defaultset ∷ type_specialset
    ∷ defaultset ∷ vpnclassify ∷ uservpn ∷ uservpnlist ∷ deviceordervpn ∷ setvpn ∷ []

abbrev all_deep : List Struct → Bool
all_deep [] = true
all_deep (d ∷ ds) = deep (of_struct d) && all_deep ds

structs_deep : all_deep structs ≡ true
unfolding deep well_read
structs_deep = refl

deep_of :
    (d : Struct) (ds : List Struct) → Memᴰ d ds → all_deep ds ≡ true → deep (of_struct d) ≡ true
deep_of d [] m h = elim m [ ]
deep_of d (e ∷ ds) (Memᴰ.head p) h =
    subst (λ a. deep (of_struct a) ≡ true) (sym p)
      ((and-eq-true_iff (deep (of_struct e)) (all_deep ds)).0 h).0
deep_of d (e ∷ ds) (Memᴰ.tail m) h =
    deep_of d ds m ((and-eq-true_iff (deep (of_struct e)) (all_deep ds)).0 h).1

abbrev cons_any : List String → List (List String) → List (List String)
cons_any [] lists = lists
cons_any (n ∷ names) lists = (n ∷ names) ∷ lists

-- The members that no statement reads, for the structs that have any.
abbrev pub left_out : List Struct → List (List String)
left_out [] = []
left_out (d ∷ ds) = cons_any (unread d.members d.reads) (left_out ds)

-- The structs that `to_json` writes.
pub data Written : Type 0 where
  area_server user_vpn order_vpn : Written

abbrev pub struct_of : Written → Struct
struct_of area_server = areaserverinfo
struct_of user_vpn = uservpn
struct_of order_vpn = deviceordervpn

abbrev pub writes_of : Written → List String
writes_of area_server = areaserverinfo_writes
writes_of user_vpn = uservpn_writes
writes_of order_vpn = deviceordervpn_writes

module _ {Json Real : Type 0} (lib : JsonLib Json Real) (unset : ℤ) where
  -- For every struct of the program: its `from_json` ends without a throw, with the value `t`, exactly
  -- if each declared member of `t` is what it was where the code does not read it or the JSON member of
  -- that name is missing or null, and otherwise the number, flag or text that the JSON library gives for
  -- it, or the elements of the array, or the members of the struct, read in this way in turn, an element
  -- from the values that its type starts with. The code reads all declared members of every struct, but
  -- for four of a user's device, two of a model and nine of a file.
  pub structs-IsRead :
      (d : Struct)
      → Memᴰ d structs
      → (j : Json) (s t : Vals Real d.members)
      → ((from_json lib unset d j s ≡ (true, t)) ↔ IsRead lib unset d.members d.reads j s t)
        × (left_out structs
            ≡ ("gID" ∷ "bsel" ∷ "BkImg" ∷ "task" ∷ [])
              ∷ ("bicon_down" ∷ "localPath" ∷ [])
              ∷ ("fullpath" ∷ "wfullpath" ∷ "FileSize" ∷ "FileType" ∷ "FileClassify" ∷ "arg"
                  ∷ "disable" ∷ "packagename" ∷ "versioncode" ∷ [])
              ∷ [])
  structs-IsRead d m j s t =
      (from_json-IsRead lib unset d (deep_of d structs m structs_deep) j s t, refl)

  -- Each of the three structs that are written, with integers of their types, is read back from what
  -- `to_json` makes of it, whatever was in the struct before.
  pub structs_come_back :
      JsonLaws lib
      → (w : Written) (old s : Vals Real (struct_of w).members) → Fits Real (struct_of w).members s
      → from_json lib unset
          (struct_of w)
          (to_json lib (struct_of w).members s (writes_of w) lib.null)
          old
        ≡ (true, s)
  unfolding well_read written_whole
  structs_come_back laws area_server old s fits =
      from_json-to_json lib laws unset areaserverinfo areaserverinfo_writes old s fits refl
  structs_come_back laws user_vpn old s fits =
      from_json-to_json lib laws unset uservpn uservpn_writes old s fits refl
  structs_come_back laws order_vpn old s fits =
      from_json-to_json lib laws unset deviceordervpn deviceordervpn_writes old s fits refl
