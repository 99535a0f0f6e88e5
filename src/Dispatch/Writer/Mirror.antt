-- ===== src/Dispatch/Writer/Mirror.antt =====
-- src/proxy.go: the writer of an attempt keeps up with one that writes to the client at once.
use ya_router.Common.{
  ℕ, ◌<◌, Text, true, false, Bool-cases, none, some, [], ◌++◌, ◌≡◌, refl, text_key, arith, ltb, leb,
  ◌&&◌, inl, inr, if◌then◌else◌,
}
use ya_router.Dispatch.Upstream.{
  Client, client_header, client_write, AttemptResponseWriter, attempt_write_header, attempt_status,
  commit_to_real, write_real,
}
use ya_router.Dispatch.Writer.{has_status}

-- The client of the attempt's writer and the client `c` that was written to at once.
pub record IsMirror (a : AttemptResponseWriter) (c : Client) : Type 0 where
  pub status : a.output_committed ≡ true → a.real.status ≡ c.status
  pub body : a.output_committed ≡ true → a.real.body ≡ c.body
  pub header : a.real.header ≡ c.header
  pub sent_header : a.output_committed ≡ true → a.real.sent ≡ c.sent
  pub held_header : a.output_committed ≡ false → has_status c.status ≡ true → c.sent ≡ c.header
  pub none_sent : a.output_committed ≡ false → a.real.sent ≡ []
  pub emptied : a.output_committed ≡ true → a.buf ≡ []
  pub stands : a.output_committed ≡ true → has_status c.status ≡ true
  pub real_status : a.output_committed ≡ false → a.real.status ≡ none
  pub real_body : a.output_committed ≡ false → a.real.body ≡ []
  pub held_status :
      a.output_committed ≡ false → c.status ≡ (if a.headers_sent then some a.status_code else none)
  pub held_body : a.output_committed ≡ false → c.body ≡ a.buf
  pub unsent : a.headers_sent ≡ false → a.status_code ≡ 0
  pub unwritten : a.output_committed ≡ false → a.headers_sent ≡ false → a.buf ≡ []
  pub sent : a.headers_sent ≡ true → 0 < a.status_code

pub header-IsMirror :
    (code : ℕ) (a : AttemptResponseWriter) (c : Client)
    → 0 < code
    → IsMirror a c
    → IsMirror (attempt_write_header code a) (client_header code c)
unfolding attempt_write_header
header-IsMirror code a c positive v = elim (Bool-cases a.output_committed) [
  | inl committed ↦ record {
    status = λ e. ground (arith, v.status committed, v.stands committed);
    body = λ e. ground (arith, v.body committed);
    header = ground (arith, v.header);
    sent_header = λ e. ground (arith, v.sent_header committed, v.stands committed);
    held_header = λ e f. absurd (ground (arith, e, committed));
    none_sent = λ e. absurd (ground (arith, e, committed));
    emptied = λ e. ground (arith, v.emptied committed);
    stands = λ e. refl;
    real_status = λ e. absurd (ground (arith, e, committed));
    real_body = λ e. absurd (ground (arith, e, committed));
    held_status = λ e. absurd (ground (arith, e, committed));
    held_body = λ e. absurd (ground (arith, e, committed));
    unsent = λ e. ground (arith, e, v.unsent);
    unwritten = λ e. absurd (ground (arith, e, committed));
    sent = λ e. ground (arith, e, positive, v.sent);
  }
  | inr held ↦ record {
    status = λ e. absurd (ground (arith, e, held));
    body = λ e. absurd (ground (arith, e, held));
    header = ground (arith, v.header);
    sent_header = λ e. absurd (ground (arith, e, held));
    held_header = λ e f. ground (arith, v.held_header held);
    none_sent = λ e. ground (arith, v.none_sent held);
    emptied = λ e. absurd (ground (arith, e, held));
    stands = λ e. refl;
    real_status = λ e. ground (arith, v.real_status held);
    real_body = λ e. ground (arith, v.real_body held);
    held_status = λ e. ground (arith, v.held_status held);
    held_body = λ e. ground (arith, v.held_body held);
    unsent = λ e. ground (arith, e, v.unsent);
    unwritten = λ e f. ground (arith, f, v.unwritten held);
    sent = λ e. ground (arith, e, positive, v.sent);
  }
]

pub commit-IsMirror :
    (a : AttemptResponseWriter) (c : Client)
    → IsMirror a c
    → IsMirror (commit_to_real a) (client_header 200 c)
unfolding commit_to_real attempt_status
commit-IsMirror a c v = elim (Bool-cases a.output_committed) [
  | inl committed ↦ record {
    status = λ e. ground (arith, committed, v.status committed, v.stands committed);
    body = λ e. ground (arith, committed, v.body committed);
    header = ground (arith, v.header);
    sent_header = λ e. ground (arith, committed, v.sent_header committed, v.stands committed);
    held_header = λ e f. absurd (ground (arith, e, committed));
    none_sent = λ e. absurd (ground (arith, e, committed));
    emptied = λ e. ground (arith, committed, v.emptied committed);
    stands = λ e. refl;
    real_status = λ e. absurd (ground (arith, e, committed));
    real_body = λ e. absurd (ground (arith, e, committed));
    held_status = λ e. absurd (ground (arith, e, committed));
    held_body = λ e. absurd (ground (arith, e, committed));
    unsent = λ e. ground (arith, e, committed, v.unsent);
    unwritten = λ e. absurd (ground (arith, e, committed));
    sent = λ e. ground (arith, e, committed, v.sent);
  }
  | inr held ↦ record {
    status = λ e. ground (arith, held, v.real_status held, v.held_status held, v.unsent, v.sent);
    body = λ e. ground (arith, held, v.real_body held, v.held_body held);
    header = ground (arith, v.header);
    sent_header = λ e. ground (arith, held, v.header, v.held_header held, v.real_status held);
    held_header = λ e f. absurd (ground (arith, e, held));
    none_sent = λ e. absurd (ground (arith, e, held));
    emptied = λ e. ground (arith, held);
    stands = λ e. refl;
    real_status = λ e. absurd (ground (arith, e, held));
    real_body = λ e. absurd (ground (arith, e, held));
    held_status = λ e. absurd (ground (arith, e, held));
    held_body = λ e. absurd (ground (arith, e, held));
    unsent = λ e. ground (arith, e, held, v.unsent);
    unwritten = λ e. absurd (ground (arith, e, held));
    sent = λ e. ground (arith, e, held, v.sent);
  }
]

pub committed-commit : (a : AttemptResponseWriter) → (commit_to_real a).output_committed ≡ true
unfolding commit_to_real
committed-commit a = ground arith

-- Once committed, the writer passes on what it gets.
pub through-IsMirror :
    (bytes : Text) (a : AttemptResponseWriter) (c : Client)
    → a.output_committed ≡ true
    → IsMirror a c
    → IsMirror (write_real bytes a) (client_write bytes c)
through-IsMirror bytes a c committed v = record {
  status = λ e. ground (arith, v.status committed);
  body = λ e. ground (arith, v.body committed);
  header = v.header;
  sent_header = λ e. ground (arith, v.header, v.sent_header committed, v.status committed);
  held_header = λ e f. absurd (ground (arith, e, committed));
  none_sent = λ e. absurd (ground (arith, e, committed));
  emptied = λ e. v.emptied committed;
  stands = λ e. refl;
  real_status = λ e. absurd (ground (arith, e, committed));
  real_body = λ e. absurd (ground (arith, e, committed));
  held_status = λ e. absurd (ground (arith, e, committed));
  held_body = λ e. absurd (ground (arith, e, committed));
  unsent = v.unsent;
  unwritten = λ e. absurd (ground (arith, e, committed));
  sent = v.sent;
}

-- A write after a status that is not 2xx is held back.
pub held-IsMirror :
    (bytes : Text) (a : AttemptResponseWriter) (c : Client)
    → a.output_committed ≡ false
    → (leb 200 (attempt_status a) && ltb (attempt_status a) 300) ≡ false
    → IsMirror a c
    → IsMirror (record a { buf = a.buf ++ bytes }) (client_write bytes c)
unfolding attempt_status
held-IsMirror bytes a c held failed v = record {
  status = λ e. absurd (ground (arith, e, held));
  body = λ e. absurd (ground (arith, e, held));
  header = v.header;
  sent_header = λ e. absurd (ground (arith, e, held));
  held_header = λ e f. ground (arith, v.held_header held);
  none_sent = v.none_sent;
  emptied = λ e. absurd (ground (arith, e, held));
  stands = λ e. refl;
  real_status = v.real_status;
  real_body = v.real_body;
  held_status = λ e. ground (arith, v.held_status held, v.unsent, failed);
  held_body = λ e. ground (arith, v.held_body held);
  unsent = v.unsent;
  unwritten = λ e f. absurd (ground (arith, v.unsent f, failed));
  sent = v.sent;
}
