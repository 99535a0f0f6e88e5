-- ===== src/Dispatch/Writer/Delivery.antt =====
-- src/proxy.go: what the client gets from the writer of an attempt.
use ya_router.Common.{false, none, [], ◌≡◌, text_key}
use ya_router.Dispatch.Upstream.{Client, AttemptResponseWriter}

-- The client `c` has got what `d` has.
pub record IsDelivered (c d : Client) : Type 0 where
  pub status : c.status ≡ d.status
  pub sent : c.sent ≡ d.sent
  pub body : c.body ≡ d.body

-- The attempt's client has the header map of `d`, and nothing else before the commit.
pub record IsWithheld (a : AttemptResponseWriter) (d : Client) : Type 0 where
  pub header : a.real.header ≡ d.header
  pub status : a.output_committed ≡ false → a.real.status ≡ none
  pub sent : a.output_committed ≡ false → a.real.sent ≡ []
  pub body : a.output_committed ≡ false → a.real.body ≡ []
