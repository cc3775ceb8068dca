-- ===== src/Go/LowerTable.antt =====
-- unicode.ToLower beyond ASCII (Unicode 15.0), as ranges.
use my_symphony.Base.{List, [], ◌∷◌}
use my_symphony.Go.CaseRange.{CaseRange, case_range}

abbrev pub lower_ranges : List CaseRange
lower_ranges =
    case_range 192 214 1 224
    ∷ case_range 216 222 1 248
    ∷ case_range 256 302 2 257
    ∷ case_range 304 304 1 105
    ∷ case_range 306 310 2 307
    ∷ case_range 313 327 2 314
    ∷ case_range 330 374 2 331
    ∷ case_range 376 376 1 255
    ∷ case_range 377 381 2 378
    ∷ case_range 385 385 1 595
    ∷ case_range 386 388 2 387
    ∷ case_range 390 390 1 596
    ∷ case_range 391 391 1 392
    ∷ case_range 393 394 1 598
    ∷ case_range 395 395 1 396
    ∷ case_range 398 398 1 477
    ∷ case_range 399 399 1 601
    ∷ case_range 400 400 1 603
    ∷ case_range 401 401 1 402
    ∷ case_range 403 403 1 608
    ∷ case_range 404 404 1 611
    ∷ case_range 406 406 1 617
    ∷ case_range 407 407 1 616
    ∷ case_range 408 408 1 409
    ∷ case_range 412 412 1 623
    ∷ case_range 413 413 1 626
    ∷ case_range 415 415 1 629
    ∷ case_range 416 420 2 417
    ∷ case_range 422 422 1 640
    ∷ case_range 423 423 1 424
    ∷ case_range 425 425 1 643
    ∷ case_range 428 428 1 429
    ∷ case_range 430 430 1 648
    ∷ case_range 431 431 1 432
    ∷ case_range 433 434 1 650
    ∷ case_range 435 437 2 436
    ∷ case_range 439 439 1 658
    ∷ case_range 440 440 1 441
    ∷ case_range 444 444 1 445
    ∷ case_range 452 452 1 454
    ∷ case_range 453 453 1 454
    ∷ case_range 455 455 1 457
    ∷ case_range 456 456 1 457
    ∷ case_range 458 458 1 460
    ∷ case_range 459 475 2 460
    ∷ case_range 478 494 2 479
    ∷ case_range 497 497 1 499
    ∷ case_range 498 500 2 499
    ∷ case_range 502 502 1 405
    ∷ case_range 503 503 1 447
    ∷ case_range 504 542 2 505
    ∷ case_range 544 544 1 414
    ∷ case_range 546 562 2 547
    ∷ case_range 570 570 1 11365
    ∷ case_range 571 571 1 572
    ∷ case_range 573 573 1 410
    ∷ case_range 574 574 1 11366
    ∷ case_range 577 577 1 578
    ∷ case_range 579 579 1 384
    ∷ case_range 580 580 1 649
    ∷ case_range 581 581 1 652
    ∷ case_range 582 590 2 583
    ∷ case_range 880 882 2 881
    ∷ case_range 886 886 1 887
    ∷ case_range 895 895 1 1011
    ∷ case_range 902 902 1 940
    ∷ case_range 904 906 1 941
    ∷ case_range 908 908 1 972
    ∷ case_range 910 911 1 973
    ∷ case_range 913 929 1 945
    ∷ case_range 931 939 1 963
    ∷ case_range 975 975 1 983
    ∷ case_range 984 1006 2 985
    ∷ case_range 1012 1012 1 952
    ∷ case_range 1015 1015 1 1016
    ∷ case_range 1017 1017 1 1010
    ∷ case_range 1018 1018 1 1019
    ∷ case_range 1021 1023 1 891
    ∷ case_range 1024 1039 1 1104
    ∷ case_range 1040 1071 1 1072
    ∷ case_range 1120 1152 2 1121
    ∷ case_range 1162 1214 2 1163
    ∷ case_range 1216 1216 1 1231
    ∷ case_range 1217 1229 2 1218
    ∷ case_range 1232 1326 2 1233
    ∷ case_range 1329 1366 1 1377
    ∷ case_range 4256 4293 1 11520
    ∷ case_range 4295 4295 1 11559
    ∷ case_range 4301 4301 1 11565
    ∷ case_range 5024 5103 1 43888
    ∷ case_range 5104 5109 1 5112
    ∷ case_range 7312 7354 1 4304
    ∷ case_range 7357 7359 1 4349
    ∷ case_range 7680 7828 2 7681
    ∷ case_range 7838 7838 1 223
    ∷ case_range 7840 7934 2 7841
    ∷ case_range 7944 7951 1 7936
    ∷ case_range 7960 7965 1 7952
    ∷ case_range 7976 7983 1 7968
    ∷ case_range 7992 7999 1 7984
    ∷ case_range 8008 8013 1 8000
    ∷ case_range 8025 8031 2 8017
    ∷ case_range 8040 8047 1 8032
    ∷ case_range 8072 8079 1 8064
    ∷ case_range 8088 8095 1 8080
    ∷ case_range 8104 8111 1 8096
    ∷ case_range 8120 8121 1 8112
    ∷ case_range 8122 8123 1 8048
    ∷ case_range 8124 8124 1 8115
    ∷ case_range 8136 8139 1 8050
    ∷ case_range 8140 8140 1 8131
    ∷ case_range 8152 8153 1 8144
    ∷ case_range 8154 8155 1 8054
    ∷ case_range 8168 8169 1 8160
    ∷ case_range 8170 8171 1 8058
    ∷ case_range 8172 8172 1 8165
    ∷ case_range 8184 8185 1 8056
    ∷ case_range 8186 8187 1 8060
    ∷ case_range 8188 8188 1 8179
    ∷ case_range 8486 8486 1 969
    ∷ case_range 8490 8490 1 107
    ∷ case_range 8491 8491 1 229
    ∷ case_range 8498 8498 1 8526
    ∷ case_range 8544 8559 1 8560
    ∷ case_range 8579 8579 1 8580
    ∷ case_range 9398 9423 1 9424
    ∷ case_range 11264 11311 1 11312
    ∷ case_range 11360 11360 1 11361
    ∷ case_range 11362 11362 1 619
    ∷ case_range 11363 11363 1 7549
    ∷ case_range 11364 11364 1 637
    ∷ case_range 11367 11371 2 11368
    ∷ case_range 11373 11373 1 593
    ∷ case_range 11374 11374 1 625
    ∷ case_range 11375 11375 1 592
    ∷ case_range 11376 11376 1 594
    ∷ case_range 11378 11378 1 11379
    ∷ case_range 11381 11381 1 11382
    ∷ case_range 11390 11391 1 575
    ∷ case_range 11392 11490 2 11393
    ∷ case_range 11499 11501 2 11500
    ∷ case_range 11506 11506 1 11507
    ∷ case_range 42560 42604 2 42561
    ∷ case_range 42624 42650 2 42625
    ∷ case_range 42786 42798 2 42787
    ∷ case_range 42802 42862 2 42803
    ∷ case_range 42873 42875 2 42874
    ∷ case_range 42877 42877 1 7545
    ∷ case_range 42878 42886 2 42879
    ∷ case_range 42891 42891 1 42892
    ∷ case_range 42893 42893 1 613
    ∷ case_range 42896 42898 2 42897
    ∷ case_range 42902 42920 2 42903
    ∷ case_range 42922 42922 1 614
    ∷ case_range 42923 42923 1 604
    ∷ case_range 42924 42924 1 609
    ∷ case_range 42925 42925 1 620
    ∷ case_range 42926 42926 1 618
    ∷ case_range 42928 42928 1 670
    ∷ case_range 42929 42929 1 647
    ∷ case_range 42930 42930 1 669
    ∷ case_range 42931 42931 1 43859
    ∷ case_range 42932 42946 2 42933
    ∷ case_range 42948 42948 1 42900
    ∷ case_range 42949 42949 1 642
    ∷ case_range 42950 42950 1 7566
    ∷ case_range 42951 42953 2 42952
    ∷ case_range 42960 42960 1 42961
    ∷ case_range 42966 42968 2 42967
    ∷ case_range 42997 42997 1 42998
    ∷ case_range 65313 65338 1 65345
    ∷ case_range 66560 66599 1 66600
    ∷ case_range 66736 66771 1 66776
    ∷ case_range 66928 66938 1 66967
    ∷ case_range 66940 66954 1 66979
    ∷ case_range 66956 66962 1 66995
    ∷ case_range 66964 66965 1 67003
    ∷ case_range 68736 68786 1 68800
    ∷ case_range 71840 71871 1 71872
    ∷ case_range 93760 93791 1 93792
    ∷ case_range 125184 125217 1 125218
    ∷ []
