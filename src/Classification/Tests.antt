-- ===== src/Classification/Tests.antt =====
-- The client with a service that answers.
use zip_extraction.Common.{ℕ, suc, ◌≡◌, refl, true, false, Option, none, some, []}
use zip_extraction.Common.Int.{pos}
use zip_extraction.Go.Strings.{Text, text, split, str_eq, count}
use zip_extraction.Go.Path.{clean}
use zip_extraction.Extraction.Errors.{ok}
use zip_extraction.Extraction.Types.{Classification}
use zip_extraction.Extraction.Service.Effects.{ClassifyRequest}
use zip_extraction.Validation.{safe, sanitize}
use zip_extraction.Classification.{
  ClassificationResult, Request, Client, base_name, extension_hint, Envelope, HttpPorts, new_client,
  adapted, adapter_classify,
}
use zip_extraction.Go.Strings.Trim.{trim_right_slashes, is_blank}
use zip_extraction.Classification.Laws.{Exchange, adapter_classify-Exchange}

abbrev envelope : Envelope
envelope = record {
  is_ok = true;
  elapsed_ms = pos 12;
  workspace_id = text "t1";
  format = text "pdf";
  category = text "document";
  sub_category = [];
  confidence_score = 0;
  detection_tier = text "magic";
  is_forced_slipsheet = false;
  slipsheet_reason = [];
  content_hash = text "h";
  is_duplicate = false;
  policy_version = [];
}

-- The state counts the calls.
abbrev http_ports : HttpPorts ℕ Text
http_ports = record {
  read_all = λ body n. (ok body, suc n);
  url_error = λ url. none;
  send = λ req n. (ok (record { status_code = 200; body = text "{}" }), suc n);
  decode = λ body. ok envelope;
}

abbrev request : ClassifyRequest Text
request = record {
  workspace_id = text "t1";
  filename = text "a.txt";
  content_type = text "text/plain";
  parent_archive_depth = 1;
  body = text "abc";
}

client : (c : Client) × (new_client (record { url = text "http://c/"; timeout = pos 0 }) ≡ some c)
unfolding new_client is_blank trim_right_slashes text
client = (_, refl)

blank : new_client (record { url = text "  "; timeout = pos 0 }) ≡ none
unfolding client
blank = refl

names :
    (base_name (text "docs/a.tar.gz") ≡ text "a.tar.gz")
    × (extension_hint (text "a.tar.gz") ≡ text "gz")
unfolding base_name extension_hint text zip_extraction.Go.Path.base zip_extraction.Go.Path.ext
    zip_extraction.Go.Strings.after_last zip_extraction.Go.Strings.trim_prefix str_eq
    zip_extraction.Go.Strings.has_prefix
names = (refl, refl)

answers :
    (o : Option Classification) × (n : ℕ) × (adapter_classify http_ports client.0 request 0
      ≡ (ok o, n))
unfolding adapter_classify client text
answers = (_, _, refl)

adapter_classify-Exchange_example :
    (r : ClassificationResult) × (answers.0 ≡ some (adapted http_ports client.0 r))
    × Exchange http_ports client.0
        (record {
          workspace_id = request.workspace_id;
          filename = request.filename;
          content_type = request.content_type;
          parent_archive_depth = pos 1;
          body = some request.body;
        })
        0
        r
        answers.1
adapter_classify-Exchange_example =
    adapter_classify-Exchange http_ports client.0 request 0 answers.1 answers.0 answers.2

abbrev child : Request Text
child = record {
  workspace_id = text "t1";
  filename = text "a.txt";
  content_type = [];
  parent_archive_depth = pos 1;
  body = some (text "abc");
}

named : sanitize (text "docs/a.txt") ≡ safe (text "a.txt")
unfolding sanitize text zip_extraction.Validation.has_drive_letter_prefix
    zip_extraction.Validation.decode zip_extraction.Go.Strings.replace_all
    zip_extraction.Go.Url.path_unescape zip_extraction.Go.Strings.has_prefix split str_eq clean
    zip_extraction.Validation.is_traversal zip_extraction.Go.Strings.contains
    zip_extraction.Validation.check_base zip_extraction.Go.Strings.after_last
    zip_extraction.Go.Utf8.valid_string zip_extraction.Go.Utf8.runes zip_extraction.Go.Path.join
    zip_extraction.Go.Strings.cons_head
named = refl
