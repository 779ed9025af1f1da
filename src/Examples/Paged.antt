-- ===== src/Examples/Paged.antt =====
-- The pages of memalloc.c at concrete inputs.
use echelon_sbi.Base.{arith}
use echelon_sbi.Pages.{Pages, first_page}
use echelon_sbi.Pages.Fresh.{Takes, take_pages-pages_from}
use echelon_sbi.Pages.RoundTrip.{GivesBack, kfree_page-GivesBack}

-- Five pages were given out.
abbrev five_pages : Pages
five_pages = record {
  word_at = λ a. 7;
  mem_page_start = 0x80001000;
  mem_page_end = 0x80100000;
  mem_page_num_allocated = 5;
  mem_page_next_free = 6;
  mem_page_length = 6;
  mem_page_max_length = 0xFFF01;
}

kfree_page-GivesBack_example : GivesBack five_pages 3
kfree_page-GivesBack_example =
    kfree_page-GivesBack five_pages 3 (omega arith) (omega arith) (omega arith) (omega arith)
      (omega arith)

-- A block of two pages, of which five more are taken.
take_pages-pages_from_example : Takes 0x80000010 0x80004000 5 five_pages
unfolding first_page
take_pages-pages_from_example =
    take_pages-pages_from 0x80000010 0x80004000 5 five_pages (omega arith) (omega arith)
      (omega arith) (omega arith) (omega arith) (omega arith)
