-- ===== src/Router/Settings.antt =====
-- `_json_response`, `_handle_filter_get` and `_handle_filter_update`. `json.dumps` is written out for the
-- two shapes that they send.
use akari_proxy.Prelude.{
  ℕ, Bool, true, false, [], ◌∷◌, ◌++◌, ◌==◌, if◌then◌else◌, length, Text, nat_eq, text_key,
}
use akari_proxy.Prelude.Decimal.{decimal}
use akari_proxy.Prelude.Str.{codes}
use akari_proxy.Exceptions.{Exn, Result, ok, raise}
use akari_proxy.Utf8
use akari_proxy.ContentFilter.{ContentFilterSettings}
use akari_proxy.Router.Parameters.{Params, filter_update}
use akari_proxy.Router.Proxy.{RouteResult}
use akari_proxy.Exceptions.{message_of}

-- `_json_response` on the text that `json.dumps` makes
unfoldable pub json_response : ℕ → Text → RouteResult
json_response status dumped =
    let body = Utf8.encode dumped in
    record {
      status_code = status;
      body = body;
      headers =
          (codes "Content-Type", codes "application/json; charset=utf-8")
          ∷ (codes "Content-Length", decimal (length body))
          ∷ [];
    }

abbrev dump_bool : Bool → Text
dump_bool true = codes "true"
dump_bool false = codes "false"

-- `json.dumps` of the four switches
abbrev pub dump_settings : ContentFilterSettings → Text
dump_settings settings =
    codes "{\"enable_js\": "
    ++ (dump_bool settings.enable_js
        ++ (codes ", \"enable_css\": "
            ++ (dump_bool settings.enable_css
                ++ (codes ", \"enable_img\": "
                    ++ (dump_bool settings.enable_img
                        ++ (codes ", \"enable_other\": "
                            ++ (dump_bool settings.enable_other ++ codes "}")))))))

-- The escapes of a JSON string that the messages need.
abbrev escape : Text → Text
escape [] = []
escape (c ∷ s) =
    (if c == b'"' then b'\\' ∷ b'"' ∷ [] else if c == b'\\' then b'\\' ∷ b'\\' ∷ [] else c ∷ [])
    ++ escape s

abbrev pub dump_error : Exn → Text
dump_error e = codes "{\"error\": \"" ++ (escape (message_of e) ++ codes "\"}")

unfoldable pub handle_filter_get : ContentFilterSettings → RouteResult
unfolding json_response
handle_filter_get settings = json_response 200 (dump_settings settings)

abbrev answer_update :
    ContentFilterSettings → Result ContentFilterSettings → RouteResult × ContentFilterSettings
answer_update settings (raise e) = (json_response 400 (dump_error e), settings)
answer_update settings (ok updated) = (json_response 200 (dump_settings updated), updated)

unfoldable pub handle_filter_update :
    ContentFilterSettings → Params → RouteResult × ContentFilterSettings
unfolding json_response
handle_filter_update settings payload = answer_update settings (filter_update settings payload)
