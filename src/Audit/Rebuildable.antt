-- ===== src/Audit/Rebuildable.antt =====
-- The entries whose rows are built anew from their lines.
use protocol_c.Prelude.{
  ℕ, ◌≡◌, refl, ap, ◌∙◌, false, Option, none, some, List, [], ◌∷◌, ◌++◌, Text, Bytes, String, arith,
}
use protocol_c.Py.Value.{Value, null, bool, int, float, str, arr, obj, Dict, dict_get, get_or}
use protocol_c.Py.Sorted.Values.{to_float-sort_keys}
use protocol_c.Py.Sorted.{sort_keys, sort_dict, sort_option, dict_get-sort_dict}
use protocol_c.Py.Env.{Env}
use protocol_c.Audit.{AuditEntry, Row, index_entry, nullable_text}
use protocol_c.Audit.Lines.{raw_lines, strip}
use protocol_c.Audit.Append.{line_of}
use protocol_c.Audit.History.{has_newline, reread}
use protocol_c.Audit.Flows.{sorted_entry}

-- `json` and UTF-8 as documented, at the line of one entry whose order id and phase are texts: the
-- line's text is not blank, loading it gives the entry with its keys sorted, and the order of keys
-- does not matter to `dumps`.
pub record IsRebuildable (e : Env) (x : AuditEntry) : Type 0 where
  pub body : Bytes
  pub written : line_of e x ≡ body ++ 10 ∷ []
  pub one_line : has_newline body ≡ false
  pub line : Text
  pub decoded : e.decode (line_of e x) ≡ some line
  pub first : ℕ
  pub others : Text
  pub stripped : strip line ≡ first ∷ others
  pub loaded : e.loads (first ∷ others) ≡ some (reread x)
  pub order_id_text : Text
  pub order_id_is : x.order_id ≡ str order_id_text
  pub phase_text : Text
  pub phase_is : x.phase ≡ str phase_text
  pub same_dumps : e.dumps (obj (sort_dict x.payload)) ≡ e.dumps (obj x.payload)

-- A value with its keys sorted is the same text of a column.
nullable_text-sort_keys : (e : Env) (v : Value) → nullable_text e (sort_keys v) ≡ nullable_text e v
unfolding nullable_text sort_keys
nullable_text-sort_keys e null = refl
nullable_text-sort_keys e (bool b) = refl
nullable_text-sort_keys e (int z) = refl
nullable_text-sort_keys e (float b) = refl
nullable_text-sort_keys e (str s) = refl
nullable_text-sort_keys e (arr vs) = refl
nullable_text-sort_keys e (obj d) = refl

abbrev or_null : Option Value → Value
or_null none = null
or_null (some v) = v

or_null-sort_option : (o : Option Value) → or_null (sort_option o) ≡ sort_keys (or_null o)
unfolding sort_keys
or_null-sort_option none = refl
or_null-sort_option (some v) = refl

get_or-sort_dict :
    (d : Dict) (k : String) → get_or (sort_dict d) k null ≡ sort_keys (get_or d k null)
unfolding get_or
get_or-sort_dict d k = ap or_null (dict_get-sort_dict d k) ∙ or_null-sort_option (dict_get d k)

sort_keys-text : (v : Value) (t : Text) → v ≡ str t → sort_keys v ≡ v
unfolding sort_keys
sort_keys-text v t h = rw h refl

-- The lines of a file of lines.
pub raw_lines-line :
    (body rest : Bytes)
    → has_newline body ≡ false
    → raw_lines (body ++ 10 ∷ rest) ≡ (body ++ 10 ∷ []) ∷ raw_lines rest
unfolding raw_lines
raw_lines-line [] rest h = refl
raw_lines-line (b ∷ bs) rest h = ground (arith, raw_lines-line bs rest)

module _ (e : Env) where
  pub index_entry-sorted :
      (x : AuditEntry) (offset n : ℕ) (rows : List Row)
      → IsRebuildable e x
      → index_entry e (sorted_entry x) offset n rows ≡ index_entry e x offset n rows
  unfolding index_entry
  index_entry-sorted x offset n rows ready =
      rw
        (
          to_float-sort_keys e x.timestamp,
          get_or-sort_dict x.payload "seed_measurement_method",
          nullable_text-sort_keys e (get_or x.payload "seed_measurement_method" null),
          sort_keys-text x.order_id ready.order_id_text ready.order_id_is,
          sort_keys-text x.phase ready.phase_text ready.phase_is,
          ready.same_dumps,
        )
        refl
