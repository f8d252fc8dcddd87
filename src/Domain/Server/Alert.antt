-- ===== src/Domain/Server/Alert.antt =====
-- internal/domain/tls_server.go, Alert: the first plaintext alert of either side.
use socktrail.Base.{
  ℕ, Bool, not, ◌&&◌, ◌||◌, List, [], ◌∷◌, ◌++◌, Option, none, some, Bytes, length, ◌==◌,
  if◌then◌else◌, Res, ok, ◌>>=◌, index, codes,
}
use socktrail.Domain.Server.Flight.{Evidence}

-- `alertNames`
abbrev pub alert_names : List (ℕ × Bytes)
alert_names =
    (0, codes "close notify")
    ∷ (10, codes "unexpected message")
    ∷ (20, codes "bad record MAC")
    ∷ (22, codes "record overflow")
    ∷ (40, codes "handshake failure")
    ∷ (42, codes "bad certificate")
    ∷ (43, codes "unsupported certificate")
    ∷ (44, codes "certificate revoked")
    ∷ (45, codes "certificate expired")
    ∷ (46, codes "certificate unknown")
    ∷ (47, codes "illegal parameter")
    ∷ (48, codes "unknown certificate authority")
    ∷ (49, codes "access denied")
    ∷ (50, codes "decode error")
    ∷ (51, codes "decrypt error")
    ∷ (70, codes "protocol version")
    ∷ (71, codes "insufficient security")
    ∷ (80, codes "internal error")
    ∷ (86, codes "inappropriate fallback")
    ∷ (90, codes "user canceled")
    ∷ (109, codes "missing extension")
    ∷ (110, codes "unsupported extension")
    ∷ (112, codes "unrecognized name")
    ∷ (113, codes "bad certificate status response")
    ∷ (115, codes "unknown PSK identity")
    ∷ (116, codes "certificate required")
    ∷ (120, codes "no application protocol")
    ∷ []

-- `alertNames[code]`
unfoldable pub alert_name : ℕ → List (ℕ × Bytes) → Option Bytes
alert_name code [] = none
alert_name code (n ∷ ns) = if n.0 == code then some n.1 else alert_name code ns

-- The evidence with the alert, where it has a name.
unfoldable pub with_alert : Bool → Evidence → Option Bytes → Evidence
with_alert server e none = e
with_alert server e (some name) = record e {
  alert = (if server then codes "server" else codes "client") ++ (codes " alert: " ++ name);
}

-- `Alert`
unfoldable pub alert : Bytes → Bool → Evidence → Res Evidence
unfolding with_alert alert_name
alert payload server e =
    if not e.is_tls || not (length e.alert == 0) || not (length payload == 7) then ok e else do
      kind ← index payload 0
      major ← index payload 1
      high ← index payload 3
      low ← index payload 4
      level ← index payload 5
      code ← index payload 6
      ok (
          if not (kind == 21)
            || not (major == 3)
            || not (high == 0)
            || not (low == 2)
            || (not (level == 1) && not (level == 2))
          then e
          else with_alert server e (alert_name code alert_names))
