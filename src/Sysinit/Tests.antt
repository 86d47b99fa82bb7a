-- ===== src/Sysinit/Tests.antt =====
-- A configuration with two entries of one code, two models and two resolutions.
use mathlib.Core.List.{Memᴰ, reverse}
use vncc.Base.{◌≡◌, refl, true, false, [], ◌∷◌, ◌↔◌}
use vncc.Instructions.{pos, negsuc}
use vncc.Sysinit.{
  ◌=ℤ=◌, ModelInfo, Resolution, SysinitInfo, get_url_by_code, filter_resolution, set_icon_down,
  get_icon, get_vpn,
}
use vncc.Sysinit.Icons.{known, after_down, get_icon-set_icon_down}
use vncc.Sysinit.Queries.{first_url, get_url_by_code-last, Wanted, filter_resolution-Wanted}

abbrev tall : Resolution
tall = record {
  resolution_id = pos 1;
  resolution_name = "tall";
  model_id = pos 3;
  width = pos 720;
  height = pos 1280;
  multi_mode = pos 0;
  hardware_width = pos 0;
  hardware_height = pos 0;
}

abbrev phone : ModelInfo
phone = record {
  id = pos 3;
  show_order = pos 0;
  bicon_down = false;
  name = "T30";
  icon_path = "";
  local_path = 97 ∷ [];
}

abbrev config : SysinitInfo
config = record {
  model_infos = record phone { id = pos 2 } ∷ phone ∷ [];
  app_open_page_urls =
      record { page_code = pos 5001; open_url = "http://a" }
      ∷ record { page_code = pos 5001; open_url = "http://b" }
      ∷ [];
  switch_configs = record { config_code = pos 1007; is_open = pos 1 } ∷ [];
  param_configs = [];
  resolutions = tall ∷ record tall { multi_mode = pos 1 } ∷ [];
}

later_url : get_url_by_code config (pos 5001) ≡ "http://b"
unfolding get_url_by_code
later_url = refl

vpn_is_on : get_vpn config ≡ true
unfolding get_vpn
vpn_is_on = refl

last_url_run :
    get_url_by_code config (pos 5001)
    ≡ first_url (pos 5001) "about:black" (reverse config.app_open_page_urls)
last_url_run = get_url_by_code-last config (pos 5001)

get_icon-set_icon_down_run :
    get_icon (set_icon_down config (pos 3)) (pos 3) []
    ≡ after_down (pos 3 =ℤ= pos 3) (known (pos 3) config.model_infos) (get_icon config (pos 3) [])
get_icon-set_icon_down_run = get_icon-set_icon_down config (pos 3) (pos 3) []

filter_resolution_run :
    Memᴰ tall (filter_resolution config (pos 3) (negsuc 0))
    ↔ (Memᴰ tall config.resolutions × Wanted (pos 3) (negsuc 0) tall)
filter_resolution_run = filter_resolution-Wanted config (pos 3) (negsuc 0) tall
