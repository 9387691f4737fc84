-- ===== src/Intercept/Dns/Serving/Replies.antt =====
-- Which datagrams are answered, and to whom.
use mathlib.Core.List.{append_assoc}
use outrelay_agent.Base.{ℕ, ◌≡◌, refl, ap, sym, ◌∙◌, true, Option, none, some, List, [], ◌∷◌, ◌++◌}
use outrelay_agent.Intercept.Vip.{VipAllocator}
use outrelay_agent.Intercept.Dns.{DnsServer, Header, Question, Message, Wire, respond}
use outrelay_agent.Intercept.Dns.Answers.{Answers, respond-Answers}
use outrelay_agent.Intercept.Dns.Serving.{
  Received, datagram, timed_out, Replied, serve_loop, reply_to, run,
}

-- Reads that leave Run in its loop.
pub data Goes : List Received → Type 0 where
  none_yet : Goes []
  and_datagram :
      {reads : List Received} (alloc : VipAllocator) (query : List ℕ) (sender : ℕ)
      → Goes reads
      → Goes (datagram alloc query sender ∷ reads)
  and_timeout : {reads : List Received} → Goes reads → Goes (timed_out ∷ reads)

-- One reply to the sender, or none.
pub reply : ℕ → Option (List ℕ) → List (List ℕ × ℕ)
reply sender none = []
reply sender (some resp) = (resp, sender) ∷ []

module _ (fold : ℕ → ℕ) (wire : Wire) (s : DnsServer) where
  abbrev pub sent_for : List Received → List (List ℕ × ℕ)
  sent_for reads = (run fold wire s true reads).sent

  reply_to-sent :
      (sender : ℕ) (resp : Option (List ℕ)) (rest : Replied)
      → (reply_to fold wire sender resp rest).sent ≡ reply sender resp ++ rest.sent
  unfolding reply_to reply
  reply_to-sent sender none rest = refl
  reply_to-sent sender (some resp) rest = refl

  sent-append :
      (reads : List Received)
      → Goes reads
      → (more : List Received) → sent_for (reads ++ more) ≡ sent_for reads ++ sent_for more
  unfolding run serve_loop
  sent-append [] goes more = refl
  sent-append (_ ∷ reads) (and_datagram alloc query sender goes) more =
      let resp = respond fold (record s { alloc = alloc }) wire query in
      reply_to-sent sender resp (serve_loop fold wire s (reads ++ more))
      ∙ ap (λ l. reply sender resp ++ l) (sent-append reads goes more)
      ∙ sym (append_assoc (reply sender resp) (sent_for reads) (sent_for more))
      ∙ ap (λ l. l ++ sent_for more)
          (sym (reply_to-sent sender resp (serve_loop fold wire s reads)))
  sent-append (_ ∷ reads) (and_timeout goes) more = sent-append reads goes more

  -- While Run is in its loop, behind any datagrams and timeouts, a query that parses is answered
  -- to its sender, and to nobody else, by the packing of one message that answers it (nothing if it
  -- cannot be packed), between what is sent for the reads before it and for those after it.
  pub run-replies :
      (reads more : List Received) (alloc : VipAllocator) (query : List ℕ) (sender : ℕ)
      (hdr : Header) (q : Question)
      → Goes reads
      → wire.start query ≡ some hdr
      → wire.question query ≡ some q
      → (m : Message) × Answers fold (record s { alloc = alloc }) hdr q m
        × (sent_for (reads ++ datagram alloc query sender ∷ more)
            ≡ sent_for reads ++ (reply sender (wire.pack m) ++ sent_for more))
  unfolding run serve_loop
  run-replies reads more alloc query sender hdr q goes e f =
      let now = record s { alloc = alloc } in
      let (m, answers, packed) = respond-Answers fold now wire query hdr q e f in
      (
        m,
        answers,
        sent-append reads goes (datagram alloc query sender ∷ more)
            ∙ ap (λ l. sent_for reads ++ l)
                (reply_to-sent sender (respond fold now wire query) (serve_loop fold wire s more)
                  ∙ ap (λ r. reply sender r ++ sent_for more) packed),
      )

  -- A datagram that does not parse is dropped: what is sent is as if it had not come.
  pub run_drops :
      (reads more : List Received) (alloc : VipAllocator) (query : List ℕ) (sender : ℕ)
      → Goes reads
      → respond fold (record s { alloc = alloc }) wire query ≡ none
      → sent_for (reads ++ datagram alloc query sender ∷ more) ≡ sent_for (reads ++ more)
  unfolding run serve_loop reply
  run_drops reads more alloc query sender goes silent =
      sent-append reads goes (datagram alloc query sender ∷ more)
      ∙ ap (λ l. sent_for reads ++ l)
          (reply_to-sent sender (respond fold (record s { alloc = alloc }) wire query)
              (serve_loop fold wire s more)
            ∙ ap (λ r. reply sender r ++ sent_for more) silent)
      ∙ sym (sent-append reads goes more)
