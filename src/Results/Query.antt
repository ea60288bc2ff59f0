-- ===== src/Results/Query.antt =====
-- A query of the database page: `onQuerySQLBeforeSubmit`, `onQuerySQLSuccess` and
-- `onQuerySQLFinished` in resources/static/db/script.js.
use Prim.Native.String.{String}
use photo_blog.Base.{◌≡◌, refl, Bool, true, false, Option, List}
use photo_blog.Results.{◌+s◌, Result, on_query_sql_success}

-- The class "spinner" of the form's title, the contents of the elements "query-result" and
-- "query-results", and whether the tables in the latter have the widget.
pub record Page : Type 0 where
  pub spinner : Bool
  pub query_result : String
  pub query_results : String
  pub fancy : Bool

-- A statement is submitted; a reply of the server, `none` where it is `null`; the query is over.
pub data Event : Type 0 where
  before_submit : (statement : String) → Event
  success : Option (List Result) → Event
  finished : Event

abbrev pub running : (statement : String) → String
running statement = "<tr><td>Running query:</td></tr><tr><td>" +s statement +s "</td></tr>"

unfoldable step : (encode : String → String) → Page → Event → Page
unfolding on_query_sql_success
step encode p (before_submit statement) = record p {
  spinner = true;
  query_result = running statement;
}
step encode p (success results) =
    let shown = on_query_sql_success encode results in
    record p { spinner = false; query_results = shown.0; fancy = shown.1 }
step encode p finished = record p { spinner = false }

-- While a query runs, and when its reply has come, the statement is said to be running: the reply
-- goes to another element, which keeps the earlier results until then.
success-running :
    (encode : String → String) (p : Page) (statement : String) (results : Option (List Result))
    → ((step encode p (before_submit statement)).query_results ≡ p.query_results)
      × ((step encode (step encode p (before_submit statement)) (success results)).query_results
          ≡ (on_query_sql_success encode results).0)
      × ((step encode (step encode p (before_submit statement)) (success results)).query_result
          ≡ running statement)
unfolding step
success-running encode p statement results = (refl, refl, refl)
