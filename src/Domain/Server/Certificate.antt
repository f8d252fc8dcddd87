-- ===== src/Domain/Server/Certificate.antt =====
-- internal/domain/tls_server.go, certificateNames. Texts are their bytes. Every loop takes an element
-- of at least two bytes a turn; running out of turns is a panic here.
use socktrail.Base.{
  ℕ, zero, suc, ◌+◌, not, ◌&&◌, ◌||◌, List, [], ◌∷◌, ◌++◌, Option, none, some, Bytes, length, leb,
  ◌==◌, if◌then◌else◌, Res, ok, panic, ◌>>=◌, equal,
}
use socktrail.Domain.Hostname.{valid_hostname, normalize_name}
use socktrail.Domain.Server.Der.{Element, der_element}

abbrev pub max_certificate_names : ℕ
max_certificate_names = 8

abbrev pub oid_common_name : Bytes
oid_common_name = 0x55 ∷ 0x04 ∷ 0x03 ∷ []

abbrev pub oid_subject_alt_name : Bytes
oid_subject_alt_name = 0x55 ∷ 0x1d ∷ 0x11 ∷ []

-- The contents of an element, where the Boolean result is not looked at.
unfoldable pub content_of : Option Element → Bytes
content_of none = []
content_of (some e) = e.content

-- A turn of the loop over the fields of the TBS certificate; `next` is the rest of the loop.
unfoldable pub field :
    ℕ
    → Bytes
    → Bytes
    → (Bytes → Bytes → Bytes → Res (Option (Bytes × Bytes)))
    → Option Element
    → Res (Option (Bytes × Bytes))
field i subject extensions next none = ok none
field i subject extensions next (some e) =
    if i == 4
    then next e.rest e.content extensions
    else if e.tag == 0xa3
    then next e.rest subject e.content
    else next e.rest subject extensions

-- The subject and the extensions.
unfoldable pub field_loop : ℕ → ℕ → Bytes → Bytes → Bytes → Res (Option (Bytes × Bytes))
unfolding field
field_loop zero i tbs subject extensions = panic
field_loop (suc turns) i tbs subject extensions =
    if length tbs == 0 then ok (some (subject, extensions)) else do
      e ← der_element tbs
      field i subject extensions (λ rest s x. field_loop turns (i + 1) rest s x) e

-- A turn of the loop over the general names.
unfoldable pub general_name :
    List Bytes → (Bytes → List Bytes → Res (List Bytes)) → Option Element → Res (List Bytes)
general_name names next none = ok names
general_name names next (some e) = next e.rest (
    if e.tag == 0x82 && valid_hostname e.content
    then names ++ (normalize_name e.content ∷ [])
    else names)

unfoldable pub general_loop : ℕ → Bytes → List Bytes → Res (List Bytes)
unfolding general_name
general_loop zero general names = panic
general_loop (suc turns) general names =
    if length general == 0 || leb max_certificate_names (length names)
    then ok names
    else do e ← der_element general; general_name names (λ rest ns. general_loop turns rest ns) e

-- The names in the octets of the extension.
unfoldable pub octet_names : List Bytes → Option Element → Res (List Bytes)
unfolding general_loop
octet_names names none = ok names
octet_names names (some e) = general_loop (suc (length e.content)) e.content names

-- The element behind a critical flag, or the element itself.
unfoldable pub behind_flag : Option Element → Res (Option Element)
behind_flag none = ok none
behind_flag (some e) = if e.tag == 0x01 then der_element e.rest else ok (some e)

-- The value of a subject alternative name; `next` goes on with the next extension.
unfoldable pub alt_names :
    List Bytes → (List Bytes → Res (List Bytes)) → Option Element → Res (List Bytes)
unfolding octet_names
alt_names names next none = ok names
alt_names names next (some e) =
    if not (e.tag == 0x04)
    then ok names
    else do general ← der_element e.content; names' ← octet_names names general; next names'

-- An extension that was split into its OID and its value.
unfoldable pub extension_value :
    List Bytes → (List Bytes → Res (List Bytes)) → Option Element → Res (List Bytes)
unfolding alt_names behind_flag
extension_value names next none = next names
extension_value names next (some e) =
    if not (equal e.content oid_subject_alt_name)
    then next names
    else do first ← der_element e.rest; octets ← behind_flag first; alt_names names next octets

-- A turn of the loop over the extensions.
unfoldable pub extension_turn :
    List Bytes → (Bytes → List Bytes → Res (List Bytes)) → Option Element → Res (List Bytes)
unfolding extension_value
extension_turn names next none = ok names
extension_turn names next (some e) = do
  parts ← der_element e.content
  extension_value names (λ ns. next e.rest ns) parts

unfoldable pub extension_names : ℕ → Bytes → List Bytes → Res (List Bytes)
unfolding extension_turn
extension_names zero list names = panic
extension_names (suc turns) list names =
    if length list == 0
    then ok names
    else do e ← der_element list; extension_turn names (λ rest ns. extension_names turns rest ns) e

-- The value of an attribute that is a common name.
unfoldable pub common_name : List Bytes → Option Element → List Bytes
common_name names none = names
common_name names (some e) =
    if valid_hostname e.content then names ++ (normalize_name e.content ∷ []) else names

unfoldable pub attribute_name : List Bytes → Option Element → Res (List Bytes)
unfolding common_name
attribute_name names none = ok names
attribute_name names (some e) =
    if not (equal e.content oid_common_name)
    then ok names
    else do value ← der_element e.rest; ok (common_name names value)

-- A turn of the loop over the subject.
unfoldable pub subject_turn :
    List Bytes → (Bytes → List Bytes → Res (List Bytes)) → Option Element → Res (List Bytes)
unfolding attribute_name content_of
subject_turn names next none = ok names
subject_turn names next (some e) = do
  attribute ← der_element e.content
  parts ← der_element (content_of attribute)
  names' ← attribute_name names parts
  next e.rest names'

unfoldable pub subject_names : ℕ → Bytes → List Bytes → Res (List Bytes)
unfolding subject_turn
subject_names zero subject names = panic
subject_names (suc turns) subject names =
    if not (length names == 0) || length subject == 0
    then ok names
    else do e ← der_element subject; subject_turn names (λ rest ns. subject_names turns rest ns) e

-- Both lists of names, from the fields.
unfoldable pub field_names : Option (Bytes × Bytes) → Res (List Bytes)
unfolding extension_names subject_names content_of
field_names none = ok []
field_names (some (subject, extensions)) = do
  list ← der_element extensions
  names ← extension_names (suc (length (content_of list))) (content_of list) []
  subject_names (suc (length subject)) subject names

-- The explicit version is left out.
unfoldable pub behind_version : Bytes → Option Element → Bytes
behind_version tbs none = tbs
behind_version tbs (some e) = if e.tag == 0xa0 then e.rest else tbs

unfoldable pub tbs_names : Option Element → Res (List Bytes)
unfolding field_names behind_version field_loop
tbs_names none = ok []
tbs_names (some e) = do
  version ← der_element e.content
  let tbs = behind_version e.content version
  fields ← field_loop (suc (length tbs)) 0 tbs [] []
  field_names fields

unfoldable pub outer_names : Option Element → Res (List Bytes)
unfolding tbs_names
outer_names none = ok []
outer_names (some e) = do tbs ← der_element e.content; tbs_names tbs

-- `certificateNames`
unfoldable pub certificate_names : Bytes → Res (List Bytes)
unfolding outer_names
certificate_names certificate = do outer ← der_element certificate; outer_names outer
