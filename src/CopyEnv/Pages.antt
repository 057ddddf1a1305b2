-- ===== src/CopyEnv/Pages.antt =====
-- Listing all elements ends, with every page, where the server's pages end.
use cassem.Base.{
  ℕ, zero, suc, ◌<◌, ◌≡◌, ap, ◌∙◌, true, false, some, List, [], ◌++◌, String, arith, append_assoc,
}
use cassem.Domain.{Element}
use cassem.Effects.{Reply, resolved, rejected, Failure}
use cassem.CopyEnv.Elements.{
  ElementsResponse, Server, is_last, request_all_elements_from, request_all_elements,
}
use mathlib.Core.Option

-- From a seek key on the server has so many pages, which hold these elements, and then ends or fails.
pub data Pages (server : Server) : String → ℕ → Reply (List Element) → Type 0 where
  last :
      {seek : String} (page : ElementsResponse)
      → server seek ≡ resolved page
      → is_last page ≡ true
      → Pages server seek 1 (resolved page.elements)
  fails :
      {seek : String} (failure : Failure)
      → server seek ≡ rejected failure
      → Pages server seek 1 (rejected failure)
  more :
      {seek : String} {n : ℕ} {elements : List Element} (page : ElementsResponse)
      → server seek ≡ resolved page
      → is_last page ≡ false
      → Pages server (Option.get_or page.next_seek "") n (resolved elements)
      → Pages server seek (suc n) (resolved (page.elements ++ elements))
  more_fails :
      {seek : String} {n : ℕ} {failure : Failure} (page : ElementsResponse)
      → server seek ≡ resolved page
      → is_last page ≡ false
      → Pages server (Option.get_or page.next_seek "") n (rejected failure)
      → Pages server seek (suc n) (rejected failure)

abbrev put_before : List Element → Reply (List Element) → Reply (List Element)
put_before elements (resolved more_elements) = resolved (elements ++ more_elements)
put_before elements (rejected failure) = rejected failure

request_all_elements_from-Pages :
    (server : Server) (fuel : ℕ) {seek : String} {n : ℕ} {answer : Reply (List Element)}
    (elements : List Element)
    → Pages server seek n answer
    → n < suc fuel
    → request_all_elements_from server fuel seek elements ≡ some (put_before elements answer)
unfolding request_all_elements_from
request_all_elements_from-Pages server zero elements (last page e l) h = absurd (omega arith)
request_all_elements_from-Pages server zero elements (fails failure e) h = absurd (omega arith)
request_all_elements_from-Pages server zero elements (more page e l p) h = absurd (omega arith)
request_all_elements_from-Pages server zero elements (more_fails page e l p) h =
    absurd (omega arith)
request_all_elements_from-Pages server (suc fuel) elements (last page e l) h =
    rw (e, request_all_elements_from) (rw l)
request_all_elements_from-Pages server (suc fuel) elements (fails failure e) h =
    rw (e, request_all_elements_from)
request_all_elements_from-Pages server (suc fuel) elements (more {elements = others} page e l p) h =
    rw (e, request_all_elements_from)
      (rw l (
        request_all_elements_from-Pages server fuel (elements ++ page.elements) p (omega arith)
        ∙ ap (λ es. some (resolved es)) (append_assoc elements page.elements others)))
request_all_elements_from-Pages server (suc fuel) elements (more_fails page e l p) h =
    rw (e, request_all_elements_from)
      (rw l
        (request_all_elements_from-Pages server fuel (elements ++ page.elements) p (omega arith)))

-- With as much fuel as there are pages, the loop ends: it returns the elements of all pages in order,
-- or the error of the page that fails.
pub request_all_elements-Pages :
    (server : Server) (n fuel : ℕ) (answer : Reply (List Element))
    → Pages server "" n answer
    → n < suc fuel
    → request_all_elements server fuel ≡ some answer
unfolding request_all_elements
request_all_elements-Pages server n fuel (resolved elements) p h =
    request_all_elements_from-Pages server fuel [] p h
request_all_elements-Pages server n fuel (rejected failure) p h =
    request_all_elements_from-Pages server fuel [] p h
