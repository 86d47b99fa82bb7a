-- ===== src/Sysinit.antt =====
-- The methods of `_SYSINIT_INFO` in common/eInstructions.h: what the client asks of the configuration
-- that the server has sent. Each loops over one of its arrays. The members are `int` and `long`
-- numbers, compared only; the text that a caller passes by reference is an argument and comes back
-- with the result. Texts hold no zero byte, so that `c_str` keeps them whole.
pub mod Icons
pub mod Queries
mod Tests
use Prim.Native.String.{String}
use vncc.Base.{ℕ, Bool, true, false, ◌&&◌, if◌then◌else◌, List, [], ◌∷◌, ◌==◌}
use vncc.Instructions.{ℤ, pos, negsuc}

infix 50 ◌=ℤ=◌
abbrev pub ◌=ℤ=◌ : ℤ → ℤ → Bool
pos a =ℤ= pos b = a == b
negsuc a =ℤ= negsuc b = a == b
_ =ℤ= _ = false

pub record ModelInfo : Type 0 where
  pub id : ℤ
  pub show_order : ℤ
  pub bicon_down : Bool
  pub name : String
  pub icon_path : String
  pub local_path : List ℕ

pub record PageUrl : Type 0 where
  pub page_code : ℤ
  pub open_url : String

pub record SwitchConfig : Type 0 where
  pub config_code : ℤ
  pub is_open : ℤ

pub record ParamConfig : Type 0 where
  pub config_code : ℤ
  pub value : String

pub record Resolution : Type 0 where
  pub resolution_id : ℤ
  pub resolution_name : String
  pub model_id : ℤ
  pub width : ℤ
  pub height : ℤ
  pub multi_mode : ℤ
  pub hardware_width : ℤ
  pub hardware_height : ℤ

pub record SysinitInfo : Type 0 where
  pub model_infos : List ModelInfo
  pub app_open_page_urls : List PageUrl
  pub switch_configs : List SwitchConfig
  pub param_configs : List ParamConfig
  pub resolutions : List Resolution

abbrev url_loop : ℤ → String → List PageUrl → String
url_loop id url [] = url
url_loop id url (it ∷ rest) = url_loop id (if it.page_code =ℤ= id then it.open_url else url) rest

unfoldable pub get_url_by_code : SysinitInfo → ℤ → String
get_url_by_code s id = url_loop id "about:black" s.app_open_page_urls

abbrev name_loop : ℤ → String → List ModelInfo → Bool × String
name_loop id name [] = (false, name)
name_loop id name (it ∷ rest) =
    let later = name_loop id name rest in if it.id =ℤ= id then (true, it.name) else later

unfoldable pub find_model_name : SysinitInfo → ℤ → String → Bool × String
find_model_name s id name = name_loop id name s.model_infos

abbrev value_loop : ℤ → List ParamConfig → String
value_loop code [] = ""
value_loop code (it ∷ rest) =
    let later = value_loop code rest in if it.config_code =ℤ= code then it.value else later

unfoldable pub get_bitrate : SysinitInfo → String
get_bitrate s = value_loop (pos 1004) s.param_configs

unfoldable pub get_vip_resolution : SysinitInfo → String
get_vip_resolution s = value_loop (pos 1003) s.param_configs

unfoldable pub get_gvip_resolution : SysinitInfo → String
get_gvip_resolution s = value_loop (pos 1002) s.param_configs

unfoldable pub get_mulit_mode_config : SysinitInfo → String
get_mulit_mode_config s = value_loop (pos 1005) s.param_configs

unfoldable pub get_fps : SysinitInfo → String
get_fps s = value_loop (pos 2006) s.param_configs

abbrev switch_loop : ℤ → Bool → List SwitchConfig → Bool
switch_loop code is_on [] = is_on
switch_loop code is_on (it ∷ rest) =
    switch_loop code
      (if it.config_code =ℤ= code then (if it.is_open =ℤ= pos 0 then false else true) else is_on)
      rest

unfoldable pub get_apply_download : SysinitInfo → Bool
get_apply_download s = switch_loop (pos 1006) false s.switch_configs

unfoldable pub get_vpn : SysinitInfo → Bool
get_vpn s = switch_loop (pos 1007) false s.switch_configs

abbrev filter_loop : ℤ → ℤ → List Resolution → List Resolution
filter_loop modelid multi_mode [] = []
filter_loop modelid multi_mode (it ∷ rest) =
    let later = filter_loop modelid multi_mode rest in
    if multi_mode =ℤ= negsuc 0
    then (if it.model_id =ℤ= modelid then it ∷ later else later)
    else (if it.model_id =ℤ= modelid && it.multi_mode =ℤ= multi_mode then it ∷ later else later)

unfoldable pub filter_resolution : SysinitInfo → ℤ → ℤ → List Resolution
filter_resolution s modelid multi_mode = filter_loop modelid multi_mode s.resolutions

abbrev down_loop : ℤ → List ModelInfo → List ModelInfo
down_loop modelid [] = []
down_loop modelid (it ∷ rest) =
    let later = down_loop modelid rest in
    if it.id =ℤ= modelid then record it { bicon_down = true } ∷ rest else it ∷ later

unfoldable pub set_icon_down : SysinitInfo → ℤ → SysinitInfo
set_icon_down s modelid = record s { model_infos = down_loop modelid s.model_infos }

abbrev icon_loop : ℤ → List ℕ → List ModelInfo → Bool × List ℕ
icon_loop modelid path [] = (false, path)
icon_loop modelid path (it ∷ rest) =
    let later = icon_loop modelid path rest in
    if it.id =ℤ= modelid then (it.bicon_down, it.local_path) else later

unfoldable pub get_icon : SysinitInfo → ℤ → List ℕ → Bool × List ℕ
get_icon s modelid path = icon_loop modelid path s.model_infos
