-- ===== src/Go/FoldTable.antt =====
-- Simple case folding (Unicode 15.0): each rune that is not the least of those that
-- unicode.SimpleFold goes through, mapped to the least.
use my_symphony.Base.{List, [], ◌∷◌}
use my_symphony.Go.CaseRange.{CaseRange, case_range}

abbrev pub fold_ranges : List CaseRange
fold_ranges =
    case_range 97 122 1 65
    ∷ case_range 224 246 1 192
    ∷ case_range 248 254 1 216
    ∷ case_range 257 303 2 256
    ∷ case_range 307 311 2 306
    ∷ case_range 314 328 2 313
    ∷ case_range 331 375 2 330
    ∷ case_range 376 376 1 255
    ∷ case_range 378 382 2 377
    ∷ case_range 383 383 1 83
    ∷ case_range 387 389 2 386
    ∷ case_range 392 392 1 391
    ∷ case_range 396 396 1 395
    ∷ case_range 402 402 1 401
    ∷ case_range 409 409 1 408
    ∷ case_range 417 421 2 416
    ∷ case_range 424 424 1 423
    ∷ case_range 429 429 1 428
    ∷ case_range 432 432 1 431
    ∷ case_range 436 438 2 435
    ∷ case_range 441 441 1 440
    ∷ case_range 445 445 1 444
    ∷ case_range 453 453 1 452
    ∷ case_range 454 454 1 452
    ∷ case_range 456 456 1 455
    ∷ case_range 457 457 1 455
    ∷ case_range 459 459 1 458
    ∷ case_range 460 460 1 458
    ∷ case_range 462 476 2 461
    ∷ case_range 477 477 1 398
    ∷ case_range 479 495 2 478
    ∷ case_range 498 498 1 497
    ∷ case_range 499 499 1 497
    ∷ case_range 501 501 1 500
    ∷ case_range 502 502 1 405
    ∷ case_range 503 503 1 447
    ∷ case_range 505 543 2 504
    ∷ case_range 544 544 1 414
    ∷ case_range 547 563 2 546
    ∷ case_range 572 572 1 571
    ∷ case_range 573 573 1 410
    ∷ case_range 578 578 1 577
    ∷ case_range 579 579 1 384
    ∷ case_range 583 591 2 582
    ∷ case_range 595 595 1 385
    ∷ case_range 596 596 1 390
    ∷ case_range 598 599 1 393
    ∷ case_range 601 601 1 399
    ∷ case_range 603 603 1 400
    ∷ case_range 608 608 1 403
    ∷ case_range 611 611 1 404
    ∷ case_range 616 616 1 407
    ∷ case_range 617 617 1 406
    ∷ case_range 623 623 1 412
    ∷ case_range 626 626 1 413
    ∷ case_range 629 629 1 415
    ∷ case_range 640 640 1 422
    ∷ case_range 643 643 1 425
    ∷ case_range 648 648 1 430
    ∷ case_range 649 649 1 580
    ∷ case_range 650 651 1 433
    ∷ case_range 652 652 1 581
    ∷ case_range 658 658 1 439
    ∷ case_range 881 883 2 880
    ∷ case_range 887 887 1 886
    ∷ case_range 921 921 1 837
    ∷ case_range 924 924 1 181
    ∷ case_range 940 940 1 902
    ∷ case_range 941 943 1 904
    ∷ case_range 945 952 1 913
    ∷ case_range 953 953 1 837
    ∷ case_range 954 955 1 922
    ∷ case_range 956 956 1 181
    ∷ case_range 957 961 1 925
    ∷ case_range 962 962 1 931
    ∷ case_range 963 971 1 931
    ∷ case_range 972 972 1 908
    ∷ case_range 973 974 1 910
    ∷ case_range 976 976 1 914
    ∷ case_range 977 977 1 920
    ∷ case_range 981 981 1 934
    ∷ case_range 982 982 1 928
    ∷ case_range 983 983 1 975
    ∷ case_range 985 1007 2 984
    ∷ case_range 1008 1008 1 922
    ∷ case_range 1009 1009 1 929
    ∷ case_range 1011 1011 1 895
    ∷ case_range 1012 1012 1 920
    ∷ case_range 1013 1013 1 917
    ∷ case_range 1016 1016 1 1015
    ∷ case_range 1017 1017 1 1010
    ∷ case_range 1019 1019 1 1018
    ∷ case_range 1021 1023 1 891
    ∷ case_range 1072 1103 1 1040
    ∷ case_range 1104 1119 1 1024
    ∷ case_range 1121 1153 2 1120
    ∷ case_range 1163 1215 2 1162
    ∷ case_range 1218 1230 2 1217
    ∷ case_range 1231 1231 1 1216
    ∷ case_range 1233 1327 2 1232
    ∷ case_range 1377 1414 1 1329
    ∷ case_range 5112 5117 1 5104
    ∷ case_range 7296 7296 1 1042
    ∷ case_range 7297 7297 1 1044
    ∷ case_range 7298 7298 1 1054
    ∷ case_range 7299 7300 1 1057
    ∷ case_range 7301 7301 1 1058
    ∷ case_range 7302 7302 1 1066
    ∷ case_range 7303 7303 1 1122
    ∷ case_range 7312 7354 1 4304
    ∷ case_range 7357 7359 1 4349
    ∷ case_range 7681 7829 2 7680
    ∷ case_range 7835 7835 1 7776
    ∷ case_range 7838 7838 1 223
    ∷ case_range 7841 7935 2 7840
    ∷ case_range 7944 7951 1 7936
    ∷ case_range 7960 7965 1 7952
    ∷ case_range 7976 7983 1 7968
    ∷ case_range 7992 7999 1 7984
    ∷ case_range 8008 8013 1 8000
    ∷ case_range 8025 8031 2 8017
    ∷ case_range 8040 8047 1 8032
    ∷ case_range 8072 8079 1 8064
    ∷ case_range 8088 8095 1 8080
    ∷ case_range 8104 8111 1 8096
    ∷ case_range 8120 8121 1 8112
    ∷ case_range 8122 8123 1 8048
    ∷ case_range 8124 8124 1 8115
    ∷ case_range 8126 8126 1 837
    ∷ case_range 8136 8139 1 8050
    ∷ case_range 8140 8140 1 8131
    ∷ case_range 8152 8153 1 8144
    ∷ case_range 8154 8155 1 8054
    ∷ case_range 8168 8169 1 8160
    ∷ case_range 8170 8171 1 8058
    ∷ case_range 8172 8172 1 8165
    ∷ case_range 8184 8185 1 8056
    ∷ case_range 8186 8187 1 8060
    ∷ case_range 8188 8188 1 8179
    ∷ case_range 8486 8486 1 937
    ∷ case_range 8490 8490 1 75
    ∷ case_range 8491 8491 1 197
    ∷ case_range 8526 8526 1 8498
    ∷ case_range 8560 8575 1 8544
    ∷ case_range 8580 8580 1 8579
    ∷ case_range 9424 9449 1 9398
    ∷ case_range 11312 11359 1 11264
    ∷ case_range 11361 11361 1 11360
    ∷ case_range 11362 11362 1 619
    ∷ case_range 11363 11363 1 7549
    ∷ case_range 11364 11364 1 637
    ∷ case_range 11365 11365 1 570
    ∷ case_range 11366 11366 1 574
    ∷ case_range 11368 11372 2 11367
    ∷ case_range 11373 11373 1 593
    ∷ case_range 11374 11374 1 625
    ∷ case_range 11375 11375 1 592
    ∷ case_range 11376 11376 1 594
    ∷ case_range 11379 11379 1 11378
    ∷ case_range 11382 11382 1 11381
    ∷ case_range 11390 11391 1 575
    ∷ case_range 11393 11491 2 11392
    ∷ case_range 11500 11502 2 11499
    ∷ case_range 11507 11507 1 11506
    ∷ case_range 11520 11557 1 4256
    ∷ case_range 11559 11559 1 4295
    ∷ case_range 11565 11565 1 4301
    ∷ case_range 42561 42569 2 42560
    ∷ case_range 42570 42570 1 7304
    ∷ case_range 42571 42571 1 7304
    ∷ case_range 42573 42605 2 42572
    ∷ case_range 42625 42651 2 42624
    ∷ case_range 42787 42799 2 42786
    ∷ case_range 42803 42863 2 42802
    ∷ case_range 42874 42876 2 42873
    ∷ case_range 42877 42877 1 7545
    ∷ case_range 42879 42887 2 42878
    ∷ case_range 42892 42892 1 42891
    ∷ case_range 42893 42893 1 613
    ∷ case_range 42897 42899 2 42896
    ∷ case_range 42903 42921 2 42902
    ∷ case_range 42922 42922 1 614
    ∷ case_range 42923 42923 1 604
    ∷ case_range 42924 42924 1 609
    ∷ case_range 42925 42925 1 620
    ∷ case_range 42926 42926 1 618
    ∷ case_range 42928 42928 1 670
    ∷ case_range 42929 42929 1 647
    ∷ case_range 42930 42930 1 669
    ∷ case_range 42933 42947 2 42932
    ∷ case_range 42948 42948 1 42900
    ∷ case_range 42949 42949 1 642
    ∷ case_range 42950 42950 1 7566
    ∷ case_range 42952 42954 2 42951
    ∷ case_range 42961 42961 1 42960
    ∷ case_range 42967 42969 2 42966
    ∷ case_range 42998 42998 1 42997
    ∷ case_range 43859 43859 1 42931
    ∷ case_range 43888 43967 1 5024
    ∷ case_range 65345 65370 1 65313
    ∷ case_range 66600 66639 1 66560
    ∷ case_range 66776 66811 1 66736
    ∷ case_range 66967 66977 1 66928
    ∷ case_range 66979 66993 1 66940
    ∷ case_range 66995 67001 1 66956
    ∷ case_range 67003 67004 1 66964
    ∷ case_range 68800 68850 1 68736
    ∷ case_range 71872 71903 1 71840
    ∷ case_range 93792 93823 1 93760
    ∷ case_range 125218 125251 1 125184
    ∷ []
