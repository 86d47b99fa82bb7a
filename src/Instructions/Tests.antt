-- ===== src/Instructions/Tests.antt =====
-- Runs of the readers and writers over a small JSON library, and the theorems at concrete values.
use mathlib.Core.List.{Memᴰ}
use vncc.Base.{ℕ, ◌≡◌, refl, true, [], ◌∷◌, ◌↔◌, arith}
use vncc.Instructions.{pos, negsuc, Vals, Val, from_json, to_json, defaults, get_to}
use vncc.Instructions.Docs.{Doc, nothing, number, member, docs, docs_laws}
use vncc.Instructions.Explicit.{IsRead}
use vncc.Instructions.Round.{Fits, FitsOne}
use vncc.Instructions.Structs.{left_out, structs, structs-IsRead, order_vpn, structs_come_back}
use vncc.Instructions.Tables.Account.{pages}
use vncc.Instructions.Tables.Net.{deviceordervpn, deviceordervpn_writes}

abbrev page_doc : Doc
page_doc = member "PageCount" (number (pos 3)) (member "DataCount" nothing nothing)

page_runs :
    unfold Vals Val in
    from_json docs (pos 0) pages page_doc (pos 9, (pos 8, (pos 7, (pos 6, (true, tt)))))
    ≡ (true, (pos 3, (pos 8, (pos 7, (pos 6, (true, tt))))))
unfolding from_json get_to
page_runs = refl

abbrev start_pages : Vals ℕ pages.members
start_pages = defaults docs (pos 0) pages.members

abbrev read_pages : Vals ℕ pages.members
read_pages = (from_json docs (pos 0) pages page_doc start_pages).1

structs-IsRead_example :
    ((from_json docs (pos 0) pages page_doc start_pages ≡ (true, read_pages))
      ↔ IsRead docs (pos 0) pages.members pages.reads page_doc start_pages read_pages)
    × (left_out structs
        ≡ ("gID" ∷ "bsel" ∷ "BkImg" ∷ "task" ∷ [])
          ∷ ("bicon_down" ∷ "localPath" ∷ [])
          ∷ ("fullpath" ∷ "wfullpath" ∷ "FileSize" ∷ "FileType" ∷ "FileClassify" ∷ "arg" ∷ "disable"
              ∷ "packagename" ∷ "versioncode" ∷ [])
          ∷ [])
structs-IsRead_example =
    structs-IsRead docs (pos 0) pages (Memᴰ.tail (Memᴰ.tail (Memᴰ.tail (Memᴰ.head refl)))) page_doc
      start_pages read_pages

unfoldable order : Vals ℕ deviceordervpn.members
unfolding Vals
order = (pos 4, (negsuc 2, tt))

structs_come_back_example :
    from_json docs
      (pos 0)
      deviceordervpn
      (to_json docs deviceordervpn.members order deviceordervpn_writes nothing)
      (defaults docs (pos 0) deviceordervpn.members)
    ≡ (true, order)
unfolding Fits FitsOne order
structs_come_back_example =
    structs_come_back docs (pos 0) docs_laws order_vpn
      (defaults docs (pos 0) deviceordervpn.members) order (omega arith, (omega arith, tt))
