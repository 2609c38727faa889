-- ===== src/Server/Router/SubscribeWrites.antt =====
-- The subscription writes nothing.
use sub_merge.Server.Store.Action.{Outcome, answer}
use sub_merge.Base.{ℕ, inl, inr, Option, none, some}
use sub_merge.Base.Text.{Text, str}
use sub_merge.Base.Result.{Result, err, ok}
use sub_merge.Base.Tests.{Option-cases}
use sub_merge.Error.{Serialized}
use sub_merge.Formats.{OutputFormat, output_format_from_str}
use sub_merge.Server.ApiError.{Rejection}
use sub_merge.Server.Service.{Merged}
use sub_merge.Server.Combineds.{find_name}
use sub_merge.Server.App.{App, Call}
use sub_merge.Server.Store.{Store}
use sub_merge.Server.Store.Step.{Steps}
use sub_merge.Server.Routes.Subscribe.{
  SubscribeQuery, or_internal, format_of, to_str, clash_body, all_failed, v2ray_body, body_in,
  subscribe_handler,
}
use sub_merge.Server.Router.{Answer}
use sub_merge.Server.Router.Rules.{
  Writes, continued, bind-Writes, query-Writes, found-Writes, pass-Writes,
}

pub internal-Writes : (st : Store) (r : Serialized Text) → Writes st (or_internal r st)
internal-Writes st (ok t) = Steps.here
internal-Writes st (err e) = Steps.here

pub v2ray_body-Writes : (app : App) (m : Merged) (st : Store) → Writes st (v2ray_body app m st)
unfolding v2ray_body
v2ray_body-Writes app m st = pass-Writes st (all_failed m) _ _ λ f. internal-Writes st _

pub body_in-Writes :
    (app : App) (call : Call) (name : Text) (id : ℕ) (f : OutputFormat) (st : Store)
    → Writes st (body_in app call name id f st)
unfolding body_in clash_body
body_in-Writes app call name id OutputFormat.clash st =
    found-Writes st (to_str (call.headers (str "host"))) _ _ λ host e. internal-Writes st _
body_in-Writes app call name id OutputFormat.v2ray st = v2ray_body-Writes app _ st

pub format_of-Writes : (st : Store) (o : Option Text) → Writes st (format_of o st)
unfolding format_of
format_of-Writes st none = Steps.here
format_of-Writes st (some f) = elim (Option-cases (output_format_from_str f)) [
  | inl e ↦ rw (e) Steps.here
  | inr (g, e) ↦ rw (e) Steps.here
]

pub subscribe-Writes :
    (app : App) (call : Call) (st : Store) (name : Text) (q : Result Rejection SubscribeQuery)
    → Writes st (subscribe_handler app call name q st)
unfolding subscribe_handler
subscribe-Writes app call st name q = query-Writes st q _ λ p.
    found-Writes st (find_name name st.combineds) _ _ λ c e.
      bind-Writes st (format_of p.format st) _ (format_of-Writes st p.format)
        λ s1 f g. body_in-Writes app call name c.id f s1

pub shown-Writes :
    {A : Type 0} (st : Store) (f : A → Answer) (o : Outcome A)
    → Writes st o
    → Writes st (continued (λ a. answer (f a)) o)
shown-Writes st f o w = bind-Writes st o (λ a. answer (f a)) w (λ st' a e. Steps.here)
