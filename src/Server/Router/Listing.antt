-- ===== src/Server/Router/Listing.antt =====
-- The list of the combined subscriptions.
use sub_merge.Server.Store.Action.{answered, after}
use sub_merge.Base.{◌≡◌, sym, ap, ◌∙◌, List, map, arith}
use sub_merge.Server.Combineds.{member_ids}
use sub_merge.Server.App.{App, Call}
use sub_merge.Server.Store.{Store}
use sub_merge.Server.Store.Valid.{WellFormed}
use sub_merge.Server.Routes.Combineds.{CombinedDto, dto, list_combineds}
use sub_merge.Server.Routes.Combineds.Grouping.{listed-member_ids}
use sub_merge.Server.Router.Inversion.{admin-answered}

-- On well-formed tables, the list of all combined subscriptions, made of one query for all members
-- that are grouped in memory, is the rows in order with the members that a query for each row
-- gives; nothing but the sessions changes.
pub list_combineds-member_ids :
    (app : App) (call : Call) (st final : Store) (ds : List CombinedDto)
    → WellFormed st
    → list_combineds app call st ≡ answered final ds
    → (ds ≡ map (λ c. dto c (member_ids c.id st.members)) st.combineds)
      × (final ≡ record st { sessions = final.sessions })
unfolding list_combineds
list_combineds-member_ids app call st final ds w h =
    let (ss, h1) = admin-answered app call st _ h in
    let at_end : record st { sessions = ss } ≡ final = ap after h1 in
    (
      ground arith ∙ listed-member_ids st.combineds st.members st.last_combined w.combineds.keys,
      sym at_end ∙ ap (λ x. record st { sessions = x }) (ap (λ t. t.sessions) at_end),
    )
